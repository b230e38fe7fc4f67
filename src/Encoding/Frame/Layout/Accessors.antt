-- ===== src/Encoding/Frame/Layout/Accessors.antt =====
-- The accessors of a data frame's views stay within the bytes: parser.rs, `data_view_accessors!` and
-- `Fhdr`.
use lora_rs.Common.{
  ℕ, ◌+◌, ◌-◌, ◌%◌, ◌≤◌, ◌<◌, ◌≡◌, refl, sym, ap, inl, inr, none, some, List, length, get_or, take,
  drop, Result, ok, err, ok-eq, arith, ret, Returns, >>=-Returns, index, le→leb, get_elem?-get_or,
  length-take, length-drop,
}
use lora_rs.Encoding.Frame.Layout.{
  Error, slice, arr, FrameLayout, validate, DataView, with_layout, parse_data, Fhdr, fhdr, f_port,
  mic, dev_addr, fctrl, fcnt, f_opts, is_uplink,
}
use lora_rs.Encoding.Frame.Layout.Accepts.{IsLaidOut, PortAt, validate-IsLaidOut}

-- A view whose offsets lie within its bytes.
pub record Fits (v : DataView) : Type 0 where
  pub header : 7 ≤ v.layout.fhdr_len
  pub room : 1 + v.layout.fhdr_len + 4 ≤ length v.bytes
  pub end_at : v.layout.frm_end ≡ length v.bytes - 4
  pub port : PortAt v.layout

with_layout-ok :
    (bytes : List ℕ) (r : Result FrameLayout Error) (v : DataView)
    → with_layout bytes r ≡ ok v
    → (v.bytes ≡ bytes) × (r ≡ ok v.layout)
unfolding with_layout
with_layout-ok bytes (ok l) v h =
    (ap (λ (u : DataView). u.bytes) (sym found), ap (λ (u : DataView). ok u.layout) found)
  where
    found : record { bytes = bytes; layout = l } ≡ v
    found = ok-eq h
with_layout-ok bytes (err e) v h = cc

pub parse_data-ok :
    (bytes : List ℕ) (v : DataView)
    → parse_data bytes ≡ ok v
    → (v.bytes ≡ bytes) × (validate bytes ≡ ok v.layout)
unfolding parse_data
parse_data-ok bytes v h = with_layout-ok bytes (validate bytes) v h

pub parse_data-Fits : (bytes : List ℕ) (v : DataView) → parse_data bytes ≡ ok v → Fits v
parse_data-Fits bytes v h =
    let parsed = parse_data-ok bytes v h in
    let laid = validate-IsLaidOut bytes v.layout parsed.1 in
    record {
      header = omega (arith, laid.header);
      room = omega (arith, laid.room, ap length parsed.0);
      end_at = omega (arith, laid.end_at, ap length parsed.0);
      port = laid.port;
    }

pub slice-within :
    (bytes : List ℕ) (from to : ℕ)
    → from ≤ to
    → to ≤ length bytes
    → slice bytes from to ≡ ret (take (to - from) (drop from bytes))
unfolding slice
slice-within bytes from to h k = rw (le→leb from to h, le→leb to (length bytes) k) refl

pub index-within :
    (bytes : List ℕ) (i : ℕ) → i < length bytes → index bytes i ≡ ret (get_or bytes i 0)
index-within bytes i h = rw (get_elem?-get_or bytes i 0 h) refl

pub length-slice :
    (bytes : List ℕ) (from to : ℕ)
    → from ≤ to
    → to ≤ length bytes
    → length (take (to - from) (drop from bytes)) ≡ to - from
length-slice bytes from to h k =
    length-take (to - from) (drop from bytes) (omega (arith, length-drop from bytes))

-- The header of a view, as `fhdr` finds it.
abbrev pub header_of : DataView → Fhdr
header_of v = record {
  bytes = take (1 + v.layout.fhdr_len - 1) (drop 1 v.bytes);
  uplink = is_uplink v.layout.frame_type;
}

module _ (v : DataView) (w : Fits v) where
  pub fhdr-returns : fhdr v ≡ ret (header_of v)
  unfolding fhdr
  fhdr-returns =
      rw (slice-within v.bytes 1 (1 + v.layout.fhdr_len) (omega arith) (omega (arith, w.room))) refl

  pub length-header : length (header_of v).bytes ≡ v.layout.fhdr_len
  length-header =
      omega (
        arith,
        length-slice v.bytes 1 (1 + v.layout.fhdr_len) (omega arith) (omega (arith, w.room)),
      )

  pub mic-returns : (m : List ℕ) × (mic v ≡ ret m) × (length m ≡ 4)
  unfolding mic
  mic-returns = (
    take (length v.bytes - (length v.bytes - 4)) (drop (length v.bytes - 4) v.bytes),
    slice-within v.bytes (length v.bytes - 4) (length v.bytes) (omega arith) (omega arith),
    omega (
      arith,
      length-slice v.bytes (length v.bytes - 4) (length v.bytes) (omega arith) (omega arith),
      w.room,
    ),
  )

  pub f_port-Returns : Returns (f_port v)
  unfolding f_port
  f_port-Returns = on_port w.port
    where
      on_port : PortAt v.layout → Returns (f_port v)
      on_port (inl p) = (none, rw p.0 refl)
      on_port (inr p) = (
        some (get_or v.bytes (1 + v.layout.fhdr_len) 0),
        rw (p.0, index-within v.bytes (1 + v.layout.fhdr_len) (omega (arith, w.room))) refl,
      )

module _ (h : Fhdr) (long : 7 ≤ length h.bytes) where
  dev_addr-returns : (a : List ℕ) × (dev_addr h ≡ ret a) × (length a ≡ 4)
  unfolding dev_addr arr
  dev_addr-returns =
      (take 4 h.bytes, rw (slice-within h.bytes 0 4 (omega arith) (omega arith), four) refl, four)
    where
      four : length (take 4 h.bytes) ≡ 4
      four = length-take 4 h.bytes (omega arith)

  fctrl-Returns : Returns (fctrl h)
  unfolding fctrl
  fctrl-Returns = >>=-Returns _ _ (_, index-within h.bytes 4 (omega arith)) (λ octet e. (_, refl))

  fcnt-Returns : Returns (fcnt h)
  unfolding fcnt
  fcnt-Returns =
      >>=-Returns _ _ (_, index-within h.bytes 5 (omega arith))
        (λ low e. >>=-Returns _ _ (_, index-within h.bytes 6 (omega arith)) (λ high e'. (_, refl)))

  f_opts-returns : (o : List ℕ) × (f_opts h ≡ ret o) × (length o ≡ length h.bytes - 7)
  unfolding f_opts
  f_opts-returns = (
    take (length h.bytes - 7) (drop 7 h.bytes),
    slice-within h.bytes 7 (length h.bytes) long (omega arith),
    length-slice h.bytes 7 (length h.bytes) long (omega arith),
  )

-- Every accessor of a parsed frame returns; the address has four bytes, the integrity code four, and
-- FOpts as many as the header says.
pub accessors_return :
    (bytes : List ℕ) (v : DataView)
    → parse_data bytes ≡ ok v
    → (h : Fhdr) × (fhdr v ≡ ret h)
      × ((a : List ℕ) × (dev_addr h ≡ ret a) × (length a ≡ 4))
      × Returns (fctrl h)
      × Returns (fcnt h)
      × ((o : List ℕ) × (f_opts h ≡ ret o) × (length o ≡ get_or bytes 5 0 % 16))
      × Returns (f_port v)
      × ((m : List ℕ) × (mic v ≡ ret m) × (length m ≡ 4))
accessors_return bytes v h = (
  header_of v,
  fhdr-returns v w,
  dev_addr-returns (header_of v) long,
  fctrl-Returns (header_of v) long,
  fcnt-Returns (header_of v) long,
  (opts.0, opts.1, omega (arith, opts.2, length-header v w, laid.header)),
  f_port-Returns v w,
  mic-returns v w,
)
  where
    w : Fits v
    w = parse_data-Fits bytes v h

    laid : IsLaidOut bytes v.layout
    laid = validate-IsLaidOut bytes v.layout (parse_data-ok bytes v h).1

    long : 7 ≤ length (header_of v).bytes
    long = omega (arith, length-header v w, w.header)

    opts :
        (o : List ℕ) × (f_opts (header_of v) ≡ ret o) × (length o ≡ length (header_of v).bytes - 7)
    opts = f_opts-returns (header_of v) long
