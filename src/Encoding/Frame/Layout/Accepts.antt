-- ===== src/Encoding/Frame/Layout/Accepts.antt =====
-- What `Layout::validate` accepts, and the offsets it finds.
use mathlib.Core.Path.{subst}
use lora_rs.Common.{
  ℕ, ◌+◌, ◌-◌, ◌/◌, ◌%◌, ◌≤◌, ◌≡◌, ◌↔◌, refl, sym, ◌∙◌, ok-eq, ◌⊎◌, inl, inr, true, none, some,
  List, length, get_or, ok, err, arith, is_some, Option-cases, ltb, le→ltb, lt→ltb, ltb→lt,
  Bool-cases, ◌<◌, if◌then◌else◌,
}
use lora_rs.Encoding.Frame.Layout.{
  truncated_fhdr, DataFrameType, from_mhdr, FrameLayout, lay_out, validate,
}

-- A data frame of LoRaWAN R1: room for MHDR, address, FCtrl, FCnt and integrity code and for as many
-- bytes of FOpts as FCtrl says, major version 0, and one of the four message types 2 to 5.
pub record IsDataFrame (bytes : List ℕ) : Type 0 where
  pub long : 12 + get_or bytes 5 0 % 16 ≤ length bytes
  pub major : get_or bytes 0 0 % 4 ≡ 0
  pub kind_from : 2 ≤ get_or bytes 0 0 / 32
  pub kind_to : get_or bytes 0 0 / 32 ≤ 5

-- The two shapes of a frame: with a port, or with none and nothing after the header.
abbrev pub PortAt : FrameLayout → Type 0
PortAt l =
    ((l.f_port_offset ≡ none) × (l.frm_start ≡ 1 + l.fhdr_len) × (l.frm_start ≡ l.frm_end))
    ⊎ ((l.f_port_offset ≡ some (1 + l.fhdr_len))
        × (l.frm_start ≡ 2 + l.fhdr_len)
        × (l.frm_start ≤ l.frm_end))

-- Offsets that fit the bytes.
pub record IsLaidOut (bytes : List ℕ) (l : FrameLayout) : Type 0 where
  pub kind : from_mhdr (get_or bytes 0 0) ≡ some l.frame_type
  pub header : l.fhdr_len ≡ 7 + get_or bytes 5 0 % 16
  pub room : 1 + l.fhdr_len + 4 ≤ length bytes
  pub end_at : l.frm_end ≡ length bytes - 4
  pub port : PortAt l

from_mhdr-some : (m : ℕ) (k : DataFrameType) → from_mhdr m ≡ some k → (2 ≤ m / 32) × (m / 32 ≤ 5)
unfolding from_mhdr
from_mhdr-some m k h = ground arith

from_mhdr-is_some : (m : ℕ) → 2 ≤ m / 32 → m / 32 ≤ 5 → is_some (from_mhdr m) ≡ true
unfolding from_mhdr
from_mhdr-is_some m lo hi = ground arith

unfoldable pub offsets : DataFrameType → ℕ → ℕ → FrameLayout
offsets k fhdr total = record {
  frame_type = k;
  fhdr_len = fhdr;
  f_port_offset = if ltb (1 + fhdr) (total - 4) then some (1 + fhdr) else none;
  frm_start = if ltb (1 + fhdr) (total - 4) then 1 + fhdr + 1 else 1 + fhdr;
  frm_end = total - 4;
}

pub lay_out-fits :
    (k : DataFrameType) (fhdr total : ℕ)
    → 5 + fhdr ≤ total
    → lay_out k fhdr total ≡ ok (offsets k fhdr total)
unfolding lay_out offsets
lay_out-fits k fhdr total h = rw (le→ltb (total - 4) (1 + fhdr) (omega arith)) refl

lay_out-short :
    (k : DataFrameType) (fhdr total : ℕ)
    → 4 ≤ total
    → total < 5 + fhdr
    → lay_out k fhdr total ≡ err truncated_fhdr
unfolding lay_out
lay_out-short k fhdr total h4 h = rw (lt→ltb (total - 4) (1 + fhdr) (omega arith)) refl

offsets-PortAt :
    (k : DataFrameType) (fhdr total : ℕ) → 5 + fhdr ≤ total → PortAt (offsets k fhdr total)
unfolding offsets
offsets-PortAt k fhdr total h = elim (Bool-cases (ltb (1 + fhdr) (total - 4))) [
  | inl e ↦ inr (rw e refl, rw e (omega arith), rw e (omega (arith, ltb→lt _ _ e)))
  | inr e ↦ inl (rw e refl, rw e refl, rw e (ground arith))
]

pub validate-eq :
    (bytes : List ℕ) (k : DataFrameType)
    → 12 ≤ length bytes
    → get_or bytes 0 0 % 4 ≡ 0
    → from_mhdr (get_or bytes 0 0) ≡ some k
    → validate bytes ≡ lay_out k (7 + get_or bytes 5 0 % 16) (length bytes)
unfolding validate
validate-eq bytes k h m e = rw (le→ltb (length bytes) 12 h, m, e) refl

-- The tests that come before the offsets.
validate-guards :
    (bytes : List ℕ) (l : FrameLayout)
    → validate bytes ≡ ok l
    → (12 ≤ length bytes)
      × (get_or bytes 0 0 % 4 ≡ 0)
      × (is_some (from_mhdr (get_or bytes 0 0)) ≡ true)
unfolding validate
validate-guards bytes l h = (ground arith, ground arith, ground arith)

lay_out-IsLaidOut :
    (bytes : List ℕ) (k : DataFrameType) (l : FrameLayout)
    → 12 ≤ length bytes
    → from_mhdr (get_or bytes 0 0) ≡ some k
    → lay_out k (7 + get_or bytes 5 0 % 16) (length bytes) ≡ ok l
    → IsLaidOut bytes l
unfolding offsets
lay_out-IsLaidOut bytes k l h e found =
    elim (Bool-cases (ltb (length bytes) (12 + get_or bytes 5 0 % 16))) [
      | inl p ↦ absurd_result (
          sym (
            lay_out-short k (7 + get_or bytes 5 0 % 16) (length bytes) (omega arith)
              (omega (arith, ltb→lt _ _ p)))
          ∙ found)
      | inr p ↦
          let fits : 12 + get_or bytes 5 0 % 16 ≤ length bytes = ground arith in
          subst (IsLaidOut bytes)
            (ok-eq (
              sym (lay_out-fits k (7 + get_or bytes 5 0 % 16) (length bytes) (omega arith))
              ∙ found))
            (record {
              kind = e;
              header = refl;
              room = omega arith;
              end_at = refl;
              port = offsets-PortAt k (7 + get_or bytes 5 0 % 16) (length bytes) (omega arith);
            })
    ]
  where
    absurd_result : err truncated_fhdr ≡ ok l → IsLaidOut bytes l
    absurd_result q = cc

pub validate-IsLaidOut :
    (bytes : List ℕ) (l : FrameLayout) → validate bytes ≡ ok l → IsLaidOut bytes l
validate-IsLaidOut bytes l h =
    let guards = validate-guards bytes l h in
    elim (Option-cases (from_mhdr (get_or bytes 0 0))) [
      | inl e ↦ absurd_kind e guards.2
      | inr (k, e) ↦
          lay_out-IsLaidOut bytes k l guards.0 e (sym (validate-eq bytes k guards.0 guards.1 e) ∙ h)
    ]
  where
    absurd_kind :
        from_mhdr (get_or bytes 0 0) ≡ none
        → is_some (from_mhdr (get_or bytes 0 0)) ≡ true
        → IsLaidOut bytes l
    absurd_kind e p = cc

-- `Layout::validate` accepts a sequence of bytes exactly when it is a data frame of LoRaWAN R1.
pub validate_accepts :
    (bytes : List ℕ) → ((l : FrameLayout) × (validate bytes ≡ ok l)) ↔ IsDataFrame bytes
validate_accepts bytes = (sound, complete)
  where
    sound : (l : FrameLayout) × (validate bytes ≡ ok l) → IsDataFrame bytes
    sound (l, h) =
        let laid = validate-IsLaidOut bytes l h in
        let kinds = from_mhdr-some _ _ laid.kind in
        record {
          long = omega (arith, laid.header, laid.room);
          major = (validate-guards bytes l h).1;
          kind_from = kinds.0;
          kind_to = kinds.1;
        }

    complete : IsDataFrame bytes → (l : FrameLayout) × (validate bytes ≡ ok l)
    complete f = elim (Option-cases (from_mhdr (get_or bytes 0 0))) [
      | inl e ↦ absurd_kind e (from_mhdr-is_some _ f.kind_from f.kind_to)
      | inr (k, e) ↦ (
        offsets k (7 + get_or bytes 5 0 % 16) (length bytes),
        validate-eq bytes k (omega (arith, f.long)) f.major e
            ∙ lay_out-fits k (7 + get_or bytes 5 0 % 16) (length bytes) (omega (arith, f.long)),
      )
    ]
      where
        absurd_kind :
            from_mhdr (get_or bytes 0 0) ≡ none
            → is_some (from_mhdr (get_or bytes 0 0)) ≡ true
            → (l : FrameLayout) × (validate bytes ≡ ok l)
        absurd_kind e p = cc
