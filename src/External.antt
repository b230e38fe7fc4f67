-- ===== src/External.antt =====
-- Code that the repository calls and does not contain, as interfaces: heapless::Vec, rand_core's
-- RngCore, and the AES-128 behind `lorawan::keys::Crypto`.
use lora_rs.Common.{
  ℕ, suc, ◌+◌, ◌≤◌, ◌<◌, ◌≡◌, List, [], ◌∷◌, ◌++◌, length, ltb, if◌then◌else◌, Result, ok, err,
  arith,
}

-- `heapless::Vec<A, N>`, seen as the list of its elements: `push` and `extend_from_slice` append
-- where the capacity allows it, and otherwise fail.
pub record BoundedVec : Type 1 where
  pub push : (A : Type 0) → ℕ → List A → A → Result (List A) A
  pub extend_from_slice : (A : Type 0) → ℕ → List A → List A → Result (List A) (Unit {0})
  pub push_fits :
      (A : Type 0) (n : ℕ) (xs : List A) (a : A) → length xs < n → push A n xs a ≡ ok (xs ++ a ∷ [])
  pub push_full : (A : Type 0) (n : ℕ) (xs : List A) (a : A) → n ≤ length xs → push A n xs a ≡ err a
  pub extend_fits :
      (A : Type 0) (n : ℕ) (xs ys : List A)
      → length xs + length ys ≤ n
      → extend_from_slice A n xs ys ≡ ok (xs ++ ys)
  pub extend_full :
      (A : Type 0) (n : ℕ) (xs ys : List A)
      → n < length xs + length ys
      → extend_from_slice A n xs ys ≡ err tt

-- A bounded list meets the interface.
pub list_push : (A : Type 0) → ℕ → List A → A → Result (List A) A
list_push A n xs a = if ltb (length xs) n then ok (xs ++ a ∷ []) else err a

pub list_extend : (A : Type 0) → ℕ → List A → List A → Result (List A) (Unit {0})
list_extend A n xs ys = if ltb n (length xs + length ys) then err tt else ok (xs ++ ys)

pub list_push_fits :
    (A : Type 0) (n : ℕ) (xs : List A) (a : A)
    → length xs < n
    → list_push A n xs a ≡ ok (xs ++ a ∷ [])
unfolding list_push
list_push_fits A n xs a h = ground arith

pub list_push_full :
    (A : Type 0) (n : ℕ) (xs : List A) (a : A) → n ≤ length xs → list_push A n xs a ≡ err a
unfolding list_push
list_push_full A n xs a h = ground arith

pub list_extend_fits :
    (A : Type 0) (n : ℕ) (xs ys : List A)
    → length xs + length ys ≤ n
    → list_extend A n xs ys ≡ ok (xs ++ ys)
unfolding list_extend
list_extend_fits A n xs ys h = ground arith

pub list_extend_full :
    (A : Type 0) (n : ℕ) (xs ys : List A)
    → n < length xs + length ys
    → list_extend A n xs ys ≡ err tt
unfolding list_extend
list_extend_full A n xs ys h = ground arith

unfoldable pub bounded_list : BoundedVec
unfolding list_push list_extend
bounded_list = record {
  push = list_push;
  extend_from_slice = list_extend;
  push_fits = list_push_fits;
  push_full = list_push_full;
  extend_fits = list_extend_fits;
  extend_full = list_extend_full;
}

-- `rand_core::RngCore`: the stream of the values that `next_u32` gives from here on.
abbrev pub Rng : Type 0
Rng = ℕ → ℕ

abbrev pub next_u32 : Rng → ℕ × Rng
next_u32 r = (r 0, λ n. r (suc n))

-- A `Crypto` bound to a key: AES-128 on one block of 16 bytes, and the first four bytes of the
-- AES-CMAC of `b0` followed by the data.
pub record Crypto : Type 0 where
  pub encrypt_block : List ℕ → List ℕ
  pub calculate_mic : List ℕ → List ℕ → List ℕ

-- `nb_device::radio::Response<R>`, without the contents of `Phy`, and `Event<R>`.
pub data RadioResponse : Type 0 where
  radio_idle txing rxing phy_response : RadioResponse
  tx_done : ℕ → RadioResponse
  rx_done : ℕ → RadioResponse

pub data RadioEvent (Tx Rx Phy : Type 0) : Type 0 where
  tx_request : Tx → List ℕ → RadioEvent Tx Rx Phy
  rx_request : Rx → RadioEvent Tx Rx Phy
  cancel_rx : RadioEvent Tx Rx Phy
  phy_event : Phy → RadioEvent Tx Rx Phy

-- The traits `PhyRxTx` and `Timings`, which an application implements for its radio: a state, what it
-- answers to an event, the packet it holds, and the two constants of its timing (the first is signed,
-- as the 32 bits of its two's complement).
pub record PhyRxTx (Tx Rx : Type 0) : Type 1 where
  pub Radio : Type 0
  pub PhyEvent : Type 0
  pub PhyError : Type 0
  pub handle_event : Radio → RadioEvent Tx Rx PhyEvent → Result RadioResponse PhyError × Radio
  pub received_packet : Radio → List ℕ
  pub window_offset_ms : Radio → ℕ
  pub window_duration_ms : Radio → ℕ
