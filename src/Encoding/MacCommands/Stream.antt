-- ===== src/Encoding/MacCommands/Stream.antt =====
-- The iterator over a command stream ends: the fuel that `commands` gives is enough.
use lora_rs.Common.{
  Result-cases, ℕ, zero, suc, ◌+◌, ◌≤◌, ◌≡◌, refl, ap, sym, ◌∙◌, List, [], ◌∷◌, inl, inr, arith,
  length, length-drop, drop, some, Result, ok, err,
}
use lora_rs.Encoding.MacCommands.{
  ParseError, new, prepend, collected, drain_ok, commands, step_on, parse_uplink, parse_downlink,
}

-- What the iterator relies on: a command takes at least its identifier, and only bytes that are
-- there.
pub record IsFraming {C : Type 0} (parse_one : ℕ → List ℕ → Result (C × ℕ) ParseError)
    : Type 0 where
  pub takes :
      (cid : ℕ) (rest : List ℕ) (c : C) (n : ℕ)
      → parse_one cid rest ≡ ok (c, n)
      → (1 ≤ n) × (n ≤ suc (length rest))

pub parse_uplink-IsFraming : IsFraming parse_uplink
unfolding parse_uplink
parse_uplink-IsFraming = record { takes = λ cid rest c n h. ground arith }

pub parse_downlink-IsFraming : IsFraming parse_downlink
unfolding parse_downlink
parse_downlink-IsFraming = record { takes = λ cid rest c n h. ground arith }

module _ {C : Type 0} (parse_one : ℕ → List ℕ → Result (C × ℕ) ParseError) where
  pub drain_ok_ok :
      (fuel cid : ℕ) (rest : List ℕ) {c : C} {n : ℕ}
      → parse_one cid rest ≡ ok (c, n)
      → drain_ok parse_one (suc fuel) (new (cid ∷ rest))
        ≡ prepend c (drain_ok parse_one fuel (new (drop n (cid ∷ rest))))
  unfolding drain_ok new step_on
  drain_ok_ok fuel cid rest e = ground (arith, e)

  -- After an error the iterator yields nothing.
  pub drain_ok_err :
      (fuel cid : ℕ) (rest : List ℕ) {e : ParseError}
      → parse_one cid rest ≡ err e
      → drain_ok parse_one (suc (suc fuel)) (new (cid ∷ rest)) ≡ some []
  unfolding drain_ok new step_on
  drain_ok_err fuel cid rest e = ground (arith, e)

module _ {C : Type 0} (parse_one : ℕ → List ℕ → Result (C × ℕ) ParseError)
    (framing : IsFraming parse_one) where
  -- With two calls more than the bytes that are left, the iterator ends.
  drain_ok_ends :
      (fuel : ℕ) (bytes : List ℕ)
      → length bytes + 2 ≤ fuel
      → (cs : List C) × ((g : ℕ)
          → length bytes + 2 ≤ g
          → drain_ok parse_one g (new bytes) ≡ some cs)
  drain_ok_ends zero bytes h = absurd (omega arith)
  drain_ok_ends (suc fuel) [] h = ([], λ g k. empty g k)
    where
      empty : (g : ℕ) → 2 ≤ g → drain_ok parse_one g (new []) ≡ some []
      empty zero k = absurd (omega arith)
      empty (suc g) k = unfold drain_ok new in refl
  drain_ok_ends (suc fuel) (cid ∷ rest) h = elim (Result-cases (parse_one cid rest)) [
    | inl ((c, n), e) ↦
        (let (cs, steady) =
            drain_ok_ends fuel (drop n (cid ∷ rest))
              (omega (arith, length-drop n (cid ∷ rest), framing.takes cid rest c n e)) in
          (c ∷ cs, λ g k. after_command c n cs e steady g k))
    | inr (x, e) ↦ ([], λ g k. after_error x e g k)
  ]
    where
      after_command :
          (c : C) (n : ℕ) (cs : List C)
          → parse_one cid rest ≡ ok (c, n)
          → ((g : ℕ)
              → length (drop n (cid ∷ rest)) + 2 ≤ g
              → drain_ok parse_one g (new (drop n (cid ∷ rest))) ≡ some cs)
          → (g : ℕ) → suc (length rest) + 2 ≤ g
          → drain_ok parse_one g (new (cid ∷ rest)) ≡ some (c ∷ cs)
      after_command c n cs e steady zero k = absurd (omega arith)
      after_command c n cs e steady (suc g) k =
          drain_ok_ok parse_one g cid rest e
          ∙ ap (prepend c)
              (steady g (omega (arith, length-drop n (cid ∷ rest), framing.takes cid rest c n e)))
          ∙ unfold prepend in refl

      after_error :
          (x : ParseError)
          → parse_one cid rest ≡ err x
          → (g : ℕ) → suc (length rest) + 2 ≤ g
          → drain_ok parse_one g (new (cid ∷ rest)) ≡ some []
      after_error x e zero k = absurd (omega arith)
      after_error x e (suc zero) k = absurd (omega arith)
      after_error x e (suc (suc g)) k = drain_ok_err parse_one g cid rest e

  -- Where each command takes at least its identifier and only bytes that are there, any number of calls
  -- that is the bytes and two more brings the iterator to its end, with the commands that `commands`
  -- collects.
  pub drain_ok-commands :
      (fuel : ℕ) (bytes : List ℕ)
      → length bytes + 2 ≤ fuel
      → drain_ok parse_one fuel (new bytes) ≡ some (commands parse_one bytes)
  unfolding commands
  drain_ok-commands fuel bytes h =
      let (cs, steady) = drain_ok_ends fuel bytes h in
      rw (steady (length bytes + 2) (omega arith)) (steady fuel h)

  -- One command off the front.
  pub commands_ok :
      (cid : ℕ) (rest : List ℕ) {c : C} {n : ℕ}
      → parse_one cid rest ≡ ok (c, n)
      → commands parse_one (cid ∷ rest) ≡ c ∷ commands parse_one (drop n (cid ∷ rest))
  unfolding prepend collected
  commands_ok cid rest {c} {n} e = ap collected (
      sym (drain_ok-commands (suc (length rest + 2)) (cid ∷ rest) (omega arith))
      ∙ drain_ok_ok parse_one (length rest + 2) cid rest e
      ∙ ap (prepend c) (
          drain_ok-commands (length rest + 2) (drop n (cid ∷ rest))
            (omega (arith, length-drop n (cid ∷ rest), framing.takes cid rest c n e))))
