-- ===== src/Encoding/Frame/Data/Parts.antt =====
-- The parts of a built data frame, found again by its parser.
use mathlib.Core.List.{append_assoc}
use lora_rs.Common.{
  ℕ, ◌+◌, ◌-◌, ◌%◌, ◌*◌, ◌≤◌, ◌≡◌, refl, sym, ap, ◌∙◌, List, ◌∷◌, ◌++◌, length, take, get_or, arith,
  ret, length-append, take-append, drop-append_past, get_or-append_past, take-length, Bool, ◌&&◌,
  some, not,
}
use lora_rs.Common.Bits.{test_bit}
use lora_rs.Encoding.Frame.Layout.{
  DataFrameType, unconfirmed_up, unconfirmed_down, confirmed_up, confirmed_down, from_mhdr,
  is_uplink, Fhdr, dev_addr, fctrl, fcnt, f_opts, adr, adr_ack_req, ack, f_pending, arr,
}
use lora_rs.Encoding.Frame.Layout.Accessors.{slice-within, index-within}
use lora_rs.Encoding.Frame.Security.{le_u16}
use lora_rs.Encoding.Frame.Data.{DataFrame, mhdr, fctrl_byte, header_bytes}

pub from_mhdr-mhdr : (k : DataFrameType) → from_mhdr (mhdr k) ≡ some k
unfolding from_mhdr mhdr
from_mhdr-mhdr unconfirmed_up = refl
from_mhdr-mhdr unconfirmed_down = refl
from_mhdr-mhdr confirmed_up = refl
from_mhdr-mhdr confirmed_down = refl

pub mhdr-major : (k : DataFrameType) → mhdr k % 4 ≡ 0
unfolding mhdr
mhdr-major k = ground arith

module _ (f : DataFrame) where
  pub fctrl_byte-len : length f.f_opts ≤ 15 → fctrl_byte f % 16 ≡ length f.f_opts
  unfolding fctrl_byte
  fctrl_byte-len h = ground arith

  pub fctrl_byte-adr :
      (up : Bool) → length f.f_opts ≤ 15 → adr (record { byte = fctrl_byte f; uplink = up }) ≡ f.adr
  unfolding fctrl_byte adr test_bit
  fctrl_byte-adr up h = ground arith

  pub fctrl_byte-ack :
      (up : Bool) → length f.f_opts ≤ 15 → ack (record { byte = fctrl_byte f; uplink = up }) ≡ f.ack
  unfolding fctrl_byte ack test_bit
  fctrl_byte-ack up h = ground arith

  pub fctrl_byte-adr_ack_req :
      length f.f_opts ≤ 15
      → adr_ack_req (record { byte = fctrl_byte f; uplink = is_uplink f.frame_type })
        ≡ (f.adr_ack_req && is_uplink f.frame_type)
  unfolding fctrl_byte adr_ack_req test_bit
  fctrl_byte-adr_ack_req h = ground arith

  pub fctrl_byte-f_pending :
      length f.f_opts ≤ 15
      → f_pending (record { byte = fctrl_byte f; uplink = is_uplink f.frame_type })
        ≡ (f.f_pending && not (is_uplink f.frame_type))
  unfolding fctrl_byte f_pending test_bit
  fctrl_byte-f_pending h = ground arith

-- The bytes of the FHDR.
abbrev pub fhdr_bytes : DataFrame → List ℕ
fhdr_bytes f = f.dev_addr ++ (fctrl_byte f ∷ le_u16 f.fcnt ++ f.f_opts)

module _ (f : DataFrame) (address : length f.dev_addr ≡ 4) where
  pub length-fhdr_bytes : length (fhdr_bytes f) ≡ 7 + length f.f_opts
  unfolding le_u16
  length-fhdr_bytes =
      omega (arith, length-append f.dev_addr (fctrl_byte f ∷ le_u16 f.fcnt ++ f.f_opts))

  pub header_bytes-append :
      (port tail : List ℕ)
      → header_bytes f port ++ tail ≡ mhdr f.frame_type ∷ (fhdr_bytes f ++ (port ++ tail))
  unfolding header_bytes le_u16
  header_bytes-append port tail = ap (◌∷◌ (mhdr f.frame_type)) (
      append_assoc f.dev_addr (fctrl_byte f ∷ le_u16 f.fcnt ++ (f.f_opts ++ port)) tail
      ∙ rw (append_assoc f.f_opts port tail)
          (sym (append_assoc f.dev_addr (fctrl_byte f ∷ le_u16 f.fcnt ++ f.f_opts) (port ++ tail))))

  pub length-header_bytes :
      (port : List ℕ) → length (header_bytes f port) ≡ 8 + length f.f_opts + length port
  unfolding header_bytes le_u16
  length-header_bytes port = omega (
    arith,
    length-append f.dev_addr (fctrl_byte f ∷ le_u16 f.fcnt ++ (f.f_opts ++ port)),
    length-append f.f_opts port,
  )

  fhdr_bytes-append :
      (tail : List ℕ)
      → fhdr_bytes f ++ tail ≡ f.dev_addr ++ (fctrl_byte f ∷ le_u16 f.fcnt ++ (f.f_opts ++ tail))
  unfolding le_u16
  fhdr_bytes-append tail = append_assoc f.dev_addr (fctrl_byte f ∷ le_u16 f.fcnt ++ f.f_opts) tail

  -- Byte `4 + k` of the FHDR, past the address.
  past_address :
      (k : ℕ) (tail : List ℕ)
      → get_or (fhdr_bytes f ++ tail) (4 + k) 0
        ≡ get_or (fctrl_byte f ∷ le_u16 f.fcnt ++ (f.f_opts ++ tail)) k 0
  past_address k tail = rw (fhdr_bytes-append tail) (
      get_or-append_past f.dev_addr (fctrl_byte f ∷ le_u16 f.fcnt ++ (f.f_opts ++ tail)) (4 + k) k 0
        (omega arith))

  pub ctl_at : (tail : List ℕ) → get_or (fhdr_bytes f ++ tail) 4 0 ≡ fctrl_byte f
  ctl_at tail = past_address 0 tail

  pub counter_at :
      (tail : List ℕ)
      → get_or (fhdr_bytes f ++ tail) 5 0 + get_or (fhdr_bytes f ++ tail) 6 0 * 256 ≡ f.fcnt % 65536
  unfolding le_u16
  counter_at tail = omega (arith, past_address 1 tail, past_address 2 tail)

  -- The header as a view has it.
  abbrev pub built_header : Fhdr
  built_header = record { bytes = fhdr_bytes f; uplink = is_uplink f.frame_type }

  header_at :
      (k : ℕ)
      → get_or (fhdr_bytes f) (4 + k) 0 ≡ get_or (fctrl_byte f ∷ le_u16 f.fcnt ++ f.f_opts) k 0
  header_at k =
      get_or-append_past f.dev_addr (fctrl_byte f ∷ le_u16 f.fcnt ++ f.f_opts) (4 + k) k 0
        (omega arith)

  pub built_dev_addr : dev_addr built_header ≡ ret f.dev_addr
  unfolding dev_addr arr
  built_dev_addr =
      rw
        (
          slice-within (fhdr_bytes f) 0 4 (omega arith) (omega (arith, length-fhdr_bytes)),
          four,
          address,
        )
        refl
    where
      four : take (4 - 0) (fhdr_bytes f) ≡ f.dev_addr
      four = rw (← address) (take-append f.dev_addr (fctrl_byte f ∷ le_u16 f.fcnt ++ f.f_opts))

  pub built_fctrl :
      fctrl built_header ≡ ret (record { byte = fctrl_byte f; uplink = is_uplink f.frame_type })
  unfolding fctrl
  built_fctrl =
      rw (index-within (fhdr_bytes f) 4 (omega (arith, length-fhdr_bytes)), header_at 0) refl

  pub built_fcnt : fcnt built_header ≡ ret (f.fcnt % 65536)
  unfolding fcnt le_u16
  built_fcnt =
      rw
        (
          index-within (fhdr_bytes f) 5 (omega (arith, length-fhdr_bytes)),
          index-within (fhdr_bytes f) 6 (omega (arith, length-fhdr_bytes)),
          header_at 1,
          header_at 2,
        )
        (ap ret (omega arith))

  pub built_f_opts : f_opts built_header ≡ ret f.f_opts
  unfolding f_opts le_u16
  built_f_opts =
      rw
        (
          slice-within (fhdr_bytes f) 7 (length (fhdr_bytes f)) (omega (arith, length-fhdr_bytes))
              (omega arith),
          drop-append_past f.dev_addr (fctrl_byte f ∷ le_u16 f.fcnt ++ f.f_opts) 7 3 (omega arith),
          take-length (length (fhdr_bytes f) - 7) f.f_opts (omega (arith, length-fhdr_bytes)),
        )
        refl
