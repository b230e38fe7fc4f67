-- ===== src/Encoding/Frame/Data/Views.antt =====
-- The view that the parser makes of a built frame.
use mathlib.Core.List.{append_assoc}
use lora_rs.Common.{
  ℕ, suc, ◌+◌, ◌-◌, ◌≤◌, ◌<◌, ◌≡◌, refl, ◌∙◌, List, [], ◌∷◌, ◌++◌, length, get_or, arith,
  length-append, some, none, Option, ok, lt→ltb, le→ltb, ret, take-append, get_or-append_past,
}
use lora_rs.Encoding.Frame.Layout.{
  DataFrameType, FrameLayout, validate, with_layout, DataView, parse_data, fhdr, f_port, mic,
}
use lora_rs.Encoding.Frame.Layout.Accepts.{offsets, lay_out-fits, validate-eq}
use lora_rs.Encoding.Frame.Layout.Accessors.{slice-within, index-within}
use lora_rs.Encoding.Frame.Data.{DataFrame, mhdr, header_bytes}
use lora_rs.Encoding.Frame.Data.Middle.{slice_end}
use lora_rs.Encoding.Frame.Data.Parts.{
  fhdr_bytes, built_header, length-fhdr_bytes, from_mhdr-mhdr, mhdr-major, fctrl_byte-len,
  header_bytes-append, length-header_bytes, ctl_at,
}

-- The offsets of a frame with header `n + 7`, payload from `start` to `end`.
abbrev layout_at : DataFrameType → ℕ → Option ℕ → ℕ → ℕ → FrameLayout
layout_at k len offset start end = record {
  frame_type = k;
  fhdr_len = len;
  f_port_offset = offset;
  frm_start = start;
  frm_end = end;
}

layout_eq :
    (k : DataFrameType) (len : ℕ) {o o' : Option ℕ} {start start' end end' : ℕ}
    → o ≡ o'
    → start ≡ start'
    → end ≡ end'
    → layout_at k len o start end ≡ layout_at k len o' start' end'
layout_eq k len p q r = λ i. layout_at k len (p i) (q i) (r i)

offsets_with_port :
    (k : DataFrameType) (len total : ℕ)
    → 1 + len < total - 4
    → offsets k len total ≡ layout_at k len (some (1 + len)) (1 + len + 1) (total - 4)
unfolding offsets
offsets_with_port k len total h = rw (lt→ltb (1 + len) (total - 4) h) refl

offsets_bare :
    (k : DataFrameType) (len : ℕ)
    → offsets k len (1 + len + 4) ≡ layout_at k len none (1 + len) (1 + len + 4 - 4)
unfolding offsets
offsets_bare k len = rw (le→ltb (1 + len) (1 + len + 4 - 4) (omega arith)) refl

abbrev port_offset : DataFrame → List ℕ → Option ℕ
port_offset f [] = none
port_offset f (p ∷ rest) = some (8 + length f.f_opts)

-- The view of a frame with the given port byte, payload and code.
abbrev pub view_of : DataFrame → List ℕ → List ℕ → List ℕ → DataView
view_of f port frm code = record {
  bytes = header_bytes f port ++ (frm ++ code);
  layout =
      layout_at f.frame_type (7 + length f.f_opts) (port_offset f port)
        (length (header_bytes f port)) (length (header_bytes f port) + length frm);
}

module _ (f : DataFrame) (address : length f.dev_addr ≡ 4) (short : length f.f_opts ≤ 15) where
  validate_built :
      (port tail : List ℕ)
      → 4 ≤ length port + length tail
      → validate (header_bytes f port ++ tail)
        ≡ ok (
            offsets f.frame_type
              (7 + length f.f_opts)
              (8 + length f.f_opts + length port + length tail))
  validate_built port tail h = rw (header_bytes-append f address port tail) (
      validate-eq (mhdr f.frame_type ∷ rest) f.frame_type (omega (arith, size))
        (mhdr-major f.frame_type) (from_mhdr-mhdr f.frame_type)
      ∙ rw (ctl_at f address (port ++ tail), fctrl_byte-len f short, size)
          (lay_out-fits f.frame_type (7 + length f.f_opts)
            (8 + length f.f_opts + length port + length tail) (omega arith)))
    where
      rest : List ℕ
      rest = fhdr_bytes f ++ (port ++ tail)

      size : suc (length rest) ≡ 8 + length f.f_opts + length port + length tail
      size = omega (
        arith,
        length-append (fhdr_bytes f) (port ++ tail),
        length-fhdr_bytes f address,
        length-append port tail,
      )

  module _ (code : List ℕ) (four : length code ≡ 4) where
    pub view_with_port :
        (p : ℕ) (frm : List ℕ)
        → parse_data (header_bytes f (p ∷ []) ++ (frm ++ code)) ≡ ok (view_of f (p ∷ []) frm code)
    unfolding parse_data with_layout
    view_with_port p frm =
        rw
          (
            validate_built (p ∷ []) (frm ++ code) (omega (arith, length-append frm code)),
            offsets_with_port f.frame_type (7 + length f.f_opts)
                (8 + length f.f_opts + 1 + length (frm ++ code))
                (omega (arith, length-append frm code)),
            port_at,
            start_at,
            end_at,
          )
          refl
      where
        size : length (header_bytes f (p ∷ [])) ≡ 9 + length f.f_opts
        size = omega (arith, length-header_bytes f address (p ∷ []))

        port_at : 1 + (7 + length f.f_opts) ≡ 8 + length f.f_opts
        port_at = omega arith

        start_at : 8 + length f.f_opts + 1 ≡ length (header_bytes f (p ∷ []))
        start_at = omega (arith, size)

        end_at :
            length (header_bytes f (p ∷ [])) + length (frm ++ code) - 4
            ≡ length (header_bytes f (p ∷ [])) + length frm
        end_at = omega (arith, length-append frm code)

    pub view_bare : parse_data (header_bytes f [] ++ code) ≡ ok (view_of f [] [] code)
    unfolding parse_data with_layout
    view_bare =
        rw
          (
            validate_built [] code (omega arith),
            total,
            offsets_bare f.frame_type (7 + length f.f_opts),
            start_at,
            end_at,
          )
          refl
      where
        total : 8 + length f.f_opts + 0 + length code ≡ 1 + (7 + length f.f_opts) + 4
        total = omega arith

        start_at : 1 + (7 + length f.f_opts) ≡ length (header_bytes f [])
        start_at = omega (arith, length-header_bytes f address [])

        end_at : length (header_bytes f []) + 4 - 4 ≡ length (header_bytes f []) + 0
        end_at = omega arith

module _ (f : DataFrame) (address : length f.dev_addr ≡ 4) (frm code : List ℕ) where
  pub fhdr_of_view : (port : List ℕ) → fhdr (view_of f port frm code) ≡ ret (built_header f address)
  unfolding fhdr
  fhdr_of_view port =
      rw
        (
          slice-within (header_bytes f port ++ (frm ++ code)) 1 (1 + (7 + length f.f_opts))
              (omega arith)
              (omega (arith, size, length-append (header_bytes f port) (frm ++ code))),
          header_bytes-append f address port (frm ++ code),
          header_len,
          take-append (fhdr_bytes f) (port ++ (frm ++ code)),
        )
        refl
    where
      size : length (header_bytes f port) ≡ 8 + length f.f_opts + length port
      size = length-header_bytes f address port

      header_len : 1 + (7 + length f.f_opts) - 1 ≡ length (fhdr_bytes f)
      header_len = omega (arith, length-fhdr_bytes f address)

  pub port_of_view : (p : ℕ) → f_port (view_of f (p ∷ []) frm code) ≡ ret (some p)
  unfolding f_port
  port_of_view p = rw (index-within bytes (8 + length f.f_opts) (omega (arith, size)), found) refl
    where
      bytes : List ℕ
      bytes = header_bytes f (p ∷ []) ++ (frm ++ code)

      size : length bytes ≡ 9 + length f.f_opts + length (frm ++ code)
      size = omega (
        arith,
        length-append (header_bytes f (p ∷ [])) (frm ++ code),
        length-header_bytes f address (p ∷ []),
      )

      found : get_or bytes (8 + length f.f_opts) 0 ≡ p
      found = rw (header_bytes-append f address (p ∷ []) (frm ++ code)) (
          get_or-append_past (mhdr f.frame_type ∷ fhdr_bytes f) (p ∷ (frm ++ code))
            (8 + length f.f_opts) 0 0 (omega (arith, length-fhdr_bytes f address)))

  pub mic_of_view : (port : List ℕ) → length code ≡ 4 → mic (view_of f port frm code) ≡ ret code
  unfolding mic
  mic_of_view port four =
      rw (← append_assoc (header_bytes f port) frm code)
        (slice_end (header_bytes f port ++ frm) code four)
