-- ===== src/Encoding/Frame/Join/Accept.antt =====
-- A join accept that a server builds is decrypted and read back by the device.
use mathlib.Core.List.{append_assoc}
use mathlib.Core.Path.{subst}
use lora_rs.Common.{
  ℕ, ◌+◌, ◌*◌, ◌%◌, ◌<◌, ◌≡◌, refl, sym, ap, ◌∙◌, List, [], ◌∷◌, ◌++◌, length, arith, length-append,
  get_or, get_or-append_past, take-append_exact, drop-append_past, le→ltb, ret, false, ◌==◌, ==_iff,
  Option, some, none, All, replicate,
}
use lora_rs.Encoding.Types.{new_from_raw}
use lora_rs.Encoding.Frame.{CfList, dynamic_channel, fixed_channel}
use lora_rs.Encoding.Frame.Layout.{slice}
use lora_rs.Encoding.Frame.Layout.Accessors.{index-within}
use lora_rs.Encoding.Frame.Data.Middle.{slice_middle}
use lora_rs.Encoding.Frame.Join.{
  JoinAccept, accept_body, concat, cflist_bytes, accept_join_nonce, accept_net_id, accept_dev_addr,
  accept_dl_settings, accept_rx_delay, chunks3, read_cflist, accept_c_f_list,
}
use lora_rs.Encoding.Frame.Join.Request.{field_middle}

-- A CFList as the source's types have it: five frequencies of three bytes, or a mask of nine.
abbrev pub IsCfList : Option CfList → Type 0
IsCfList none = Unit {0}
IsCfList (some (dynamic_channel freqs)) = (length freqs ≡ 5) × All (λ f. length f ≡ 3) freqs
IsCfList (some (fixed_channel mask)) = length mask ≡ 9

pub record IsAccept (a : JoinAccept) : Type 0 where
  pub nonce : length a.join_nonce ≡ 3
  pub net : length a.net_id ≡ 3
  pub address : length a.dev_addr ≡ 4
  pub list : IsCfList a.c_f_list

length-concat :
    (freqs : List (List ℕ))
    → All (λ f. length f ≡ 3) freqs
    → length (concat freqs) ≡ length freqs * 3
unfolding concat
length-concat [] h = refl
length-concat (f ∷ freqs) h =
    omega (arith, length-append f (concat freqs), length-concat freqs h.1, h.0)

chunks3-concat :
    (freqs : List (List ℕ)) (tail : List ℕ)
    → All (λ f. length f ≡ 3) freqs
    → chunks3 (length freqs) (concat freqs ++ tail) ≡ freqs
unfolding chunks3 concat
chunks3-concat [] tail h = refl
chunks3-concat (f ∷ freqs) tail h =
    rw
      (
        append_assoc f (concat freqs) tail,
        take-append_exact f (concat freqs ++ tail) 3 (sym h.0),
        drop-append_past f (concat freqs ++ tail) 3 0 (omega (arith, h.0)),
        chunks3-concat freqs tail h.1,
      )
      refl

-- The sixteen bytes of a CFList and the list read from them.
pub cflist-reads :
    (c : CfList)
    → IsCfList (some c)
    → (length (cflist_bytes (some c)) ≡ 16)
      × (read_cflist (cflist_bytes (some c)) (get_or (cflist_bytes (some c)) 15 0) ≡ ret (some c))
unfolding cflist_bytes read_cflist new_from_raw
cflist-reads (dynamic_channel freqs) h = (
  omega (arith, length-append (concat freqs) (0 ∷ []), fifteen),
  rw (get_or-append_past (concat freqs) (0 ∷ []) 15 0 0 (omega (arith, fifteen)))
      (ap (λ (read : List (List ℕ)). ret (some (dynamic_channel read))) chunked),
)
  where
    fifteen : length (concat freqs) ≡ 15
    fifteen = omega (arith, length-concat freqs h.1, h.0)

    chunked : chunks3 5 (concat freqs ++ (0 ∷ [])) ≡ freqs
    chunked = rw h.0 at (chunks3-concat freqs (0 ∷ []) h.1)
cflist-reads (fixed_channel mask) h = (
  omega (arith, length-append mask (replicate 6 0 ++ (1 ∷ []))),
  rw
      (
        get_or-append_past mask (replicate 6 0 ++ (1 ∷ [])) 15 6 0 (omega arith),
        le→ltb (length (mask ++ (replicate 6 0 ++ (1 ∷ [])))) 9
            (omega (arith, length-append mask (replicate 6 0 ++ (1 ∷ [])))),
        take-append_exact mask (replicate 6 0 ++ (1 ∷ [])) 9 (sym h),
      )
      refl,
)

not_equal : (m n : ℕ) → n < m → (m == n) ≡ false
not_equal m n h = ground arith

slice_at :
    (xs ys zs : List ℕ) (from to : ℕ)
    → from ≡ length xs
    → to ≡ length xs + length ys
    → slice (xs ++ (ys ++ zs)) from to ≡ ret ys
slice_at xs ys zs from to p q = rw (p, q) (slice_middle xs ys zs)

-- The bytes of a join accept before its code.
module _ (a : JoinAccept) (w : IsAccept a) where
  abbrev fields : List ℕ
  fields = 0x20 ∷ (a.join_nonce ++ (a.net_id ++ a.dev_addr))

  length-fields : length fields ≡ 11
  length-fields = omega (
    arith,
    length-append a.join_nonce (a.net_id ++ a.dev_addr),
    length-append a.net_id a.dev_addr,
    w.nonce,
    w.net,
    w.address,
  )

  abbrev settings : List ℕ
  settings = a.dl_settings ∷ (a.rx_delay % 16) ∷ []

  accept_body-parts : accept_body a ≡ fields ++ (settings ++ cflist_bytes a.c_f_list)
  unfolding accept_body
  accept_body-parts = ap (◌∷◌ 0x20) (
      sym (
        append_assoc a.join_nonce (a.net_id ++ a.dev_addr) (settings ++ cflist_bytes a.c_f_list)
        ∙ rw (append_assoc a.net_id a.dev_addr (settings ++ cflist_bytes a.c_f_list)) refl))

  module _ (code : List ℕ) (four : length code ≡ 4) where
    -- The frame in clear.
    abbrev pub plain : List ℕ
    plain = accept_body a ++ code

    plain-parts : plain ≡ fields ++ (settings ++ (cflist_bytes a.c_f_list ++ code))
    plain-parts =
        rw (accept_body-parts) (append_assoc fields (settings ++ cflist_bytes a.c_f_list) code)

    abbrev rest : List ℕ
    rest = settings ++ (cflist_bytes a.c_f_list ++ code)

    pub reads_nonce : accept_join_nonce plain ≡ ret a.join_nonce
    unfolding accept_join_nonce
    reads_nonce =
        rw (plain-parts, append_assoc a.join_nonce (a.net_id ++ a.dev_addr) rest)
          (field_middle (0x20 ∷ []) a.join_nonce ((a.net_id ++ a.dev_addr) ++ rest) 1 4 refl
            (omega (arith, w.nonce)))

    pub reads_net : accept_net_id plain ≡ ret a.net_id
    unfolding accept_net_id
    reads_net =
        rw
          (
            plain-parts,
            append_assoc a.join_nonce (a.net_id ++ a.dev_addr) rest,
            append_assoc a.net_id a.dev_addr rest,
          )
          (field_middle (0x20 ∷ a.join_nonce) a.net_id (a.dev_addr ++ rest) 4 7
            (omega (arith, w.nonce)) (omega (arith, w.nonce, w.net)))

    pub reads_address : accept_dev_addr plain ≡ ret a.dev_addr
    unfolding accept_dev_addr
    reads_address =
        rw
          (
            plain-parts,
            ← append_assoc a.join_nonce a.net_id a.dev_addr,
            append_assoc (a.join_nonce ++ a.net_id) a.dev_addr rest,
          )
          (field_middle (0x20 ∷ (a.join_nonce ++ a.net_id)) a.dev_addr rest 7 11
            (omega (arith, length-append a.join_nonce a.net_id, w.nonce, w.net))
            (omega (arith, length-append a.join_nonce a.net_id, w.nonce, w.net, w.address)))

    pub length-plain : length plain ≡ 17 + length (cflist_bytes a.c_f_list)
    length-plain = rw plain-parts (
        omega (
          arith,
          length-append fields (settings ++ (cflist_bytes a.c_f_list ++ code)),
          length-fields,
          length-append (cflist_bytes a.c_f_list) code,
        ))

    pub reads_settings : accept_dl_settings plain ≡ ret a.dl_settings
    unfolding accept_dl_settings
    reads_settings =
        index-within plain 11 (omega (arith, length-plain))
        ∙ ap ret
            (rw plain-parts (get_or-append_past fields rest 11 0 0 (omega (arith, length-fields))))

    pub reads_delay : accept_rx_delay plain ≡ ret (a.rx_delay % 16)
    unfolding accept_rx_delay
    reads_delay =
        rw
          (
            index-within plain 12 (omega (arith, length-plain)),
            plain-parts,
            get_or-append_past fields rest 12 1 0 (omega (arith, length-fields)),
          )
          (ap ret (omega arith))

    length-listed :
        (c : Option CfList) → a.c_f_list ≡ c → length plain ≡ 17 + length (cflist_bytes c)
    length-listed c e =
        omega (arith, length-plain, ap (λ (l : Option CfList). length (cflist_bytes l)) e)

    pub reads_list : (c : Option CfList) → a.c_f_list ≡ c → accept_c_f_list plain ≡ ret c
    unfolding accept_c_f_list cflist_bytes
    reads_list none e = rw ((==_iff (length plain) 17).1 (length-listed none e)) refl
    reads_list (some c) e =
        rw (longer, parts, cut, index-within (cflist_bytes (some c)) 15 (omega (arith, sixteen)))
          ((cflist-reads c list).1)
      where
        list : IsCfList (some c)
        list = subst IsCfList e w.list

        sixteen : length (cflist_bytes (some c)) ≡ 16
        sixteen = (cflist-reads c list).0

        longer : (length plain == 17) ≡ false
        longer = not_equal (length plain) 17 (omega (arith, length-listed (some c) e, sixteen))

        parts : plain ≡ (fields ++ settings) ++ (cflist_bytes (some c) ++ code)
        parts =
            plain-parts ∙ rw e (sym (append_assoc fields settings (cflist_bytes (some c) ++ code)))

        cut :
            slice ((fields ++ settings) ++ (cflist_bytes (some c) ++ code)) 13 29
            ≡ ret (cflist_bytes (some c))
        cut =
            slice_at (fields ++ settings) (cflist_bytes (some c)) code 13 29
              (omega (arith, length-append fields settings, length-fields))
              (omega (arith, length-append fields settings, length-fields, sixteen))
