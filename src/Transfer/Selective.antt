-- ===== src/Transfer/Selective.antt =====
-- crates/cypher-transfer/src/sender.rs: `run_selective`, which sends the chunks that a receiver asks
-- for again.
use cypher.Prelude.{
  ℕ, ◌+◌, ◌-◌, ◌%◌, ◌^◌, ◌≡◌, refl, ◌∙◌, inl, inr, Bool, false, List, [], ◌∷◌, length, ltb, ◌==◌,
  if◌then◌else◌, Bool-cases, Error, Result, ok, err, ◌>>=◌, bind_ok,
}
use cypher.Prelude.Errors.{transfer}
use cypher.Transfer.Sender.{insert_ack}

ok_injective {ℓ} : {A : Type ℓ} {a b : A} → ◌≡◌ {A = Result Error A} (ok a) (ok b) → a ≡ b
ok_injective h = cc

not_ok {ℓ} : {A : Type ℓ} {e : Error} {a : A} → ◌≡◌ {A = Result Error A} (err e) (ok a) → ⊥
not_ok h = cc

-- What is left of the indices, their number so far, and those sent, the last one first.
pub record Selection : Type 0 where
  pub rest : List ℕ
  pub sent_count : ℕ
  pub sent : List ℕ

module _ (transmit : ℕ → Result Error (Unit {0})) (window_size : ℕ) where
  -- Sending as long as there is room and something left.
  unfoldable pub top_up :
      (room : ℕ → Bool)
      → (rest : List ℕ) → (sent_count : ℕ) → (sent : List ℕ) → Result Error Selection
  top_up room [] sent_count sent = ok (record { rest = []; sent_count = sent_count; sent = sent })
  top_up room (idx ∷ rest) sent_count sent =
      let more = transmit idx >>= λ _. top_up room rest (sent_count + 1) (idx ∷ sent) in
      if room sent_count
      then more
      else ok (record { rest = idx ∷ rest; sent_count = sent_count; sent = sent })

  unfoldable pub initial_selection : (indices : List ℕ) → Result Error Selection
  initial_selection indices = top_up (λ sent_count. ltb sent_count window_size) indices 0 []

  -- `sent_count - self.acked.len()`, which wraps.
  unfoldable pub refill : (acked : ℕ) → Selection → Result Error Selection
  refill acked s =
      top_up (λ sent_count. ltb ((sent_count + 2 ^ 64 - acked) % 2 ^ 64) window_size) s.rest
        s.sent_count s.sent

  unfoldable pub await_acks :
      (target_count : ℕ) → (acks acked : List ℕ) → Selection → Result Error (Selection × List ℕ)
  await_acks target_count [] acked s =
      if ltb (length acked) target_count
      then err (transfer "ack channel closed prematurely")
      else ok (s, acked)
  await_acks target_count (ack_index ∷ acks) acked s =
      let acked' = insert_ack ack_index acked in
      let more = refill (length acked') s >>= λ s'. await_acks target_count acks acked' s' in
      if ltb (length acked) target_count then more else ok (s, acked)

  unfoldable pub run_selective : (indices acks acked : List ℕ) → Result Error (Selection × List ℕ)
  run_selective indices acks acked =
      if length indices == 0
      then ok (record { rest = []; sent_count = 0; sent = [] }, acked)
      else initial_selection indices >>= λ s. await_acks (length indices) acks acked s

  -- The indices in the order in which they were asked for: those sent, then those left.
  unfoldable pub in_order : (sent rest : List ℕ) → List ℕ
  in_order [] rest = rest
  in_order (i ∷ sent) rest = in_order sent (i ∷ rest)

  top_up-in_order :
      (room : ℕ → Bool) (rest : List ℕ) (n : ℕ) (sent : List ℕ) {s : Selection}
      → top_up room rest n sent ≡ ok s
      → in_order s.sent s.rest ≡ in_order sent rest
  unfolding top_up in_order
  top_up-in_order room [] n sent {s} h = rw (← ok_injective h) refl
  top_up-in_order room (i ∷ rest) n sent {s} h = elim (Bool-cases (room n)) [
    | inr full ↦ rw (← ok_injective (rw full at h)) refl
    | inl more ↦
        let (u, went, next) = bind_ok (transmit i) _ (rw more at h) in
        top_up-in_order room rest (n + 1) (i ∷ sent) next
  ]

  await_acks-in_order :
      (target_count : ℕ) (acks acked : List ℕ) (s : Selection) {r : Selection × List ℕ}
      → await_acks target_count acks acked s ≡ ok r
      → (in_order r.0.sent r.0.rest ≡ in_order s.sent s.rest)
  unfolding await_acks refill
  await_acks-in_order target_count [] acked s h =
      elim (Bool-cases (ltb (length acked) target_count)) [
        | inl early ↦ absurd (not_ok (rw early at h))
        | inr done ↦ rw (← ok_injective (rw done at h)) refl
      ]
  await_acks-in_order target_count (i ∷ acks) acked s h =
      elim (Bool-cases (ltb (length acked) target_count)) [
        | inr done ↦ rw (← ok_injective (rw done at h)) refl
        | inl more ↦
            let (s', filled, next) =
              bind_ok (refill (length (insert_ack i acked)) s) _ (rw more at h) in
            await_acks-in_order target_count acks (insert_ack i acked) s' next
            ∙ top_up-in_order _ s.rest s.sent_count s.sent filled
      ]

  -- What a selective run that returns has sent, and what it has left, are the indices asked for, in
  -- their order.
  pub run_selective-in_order :
      (indices acks acked : List ℕ) {r : Selection × List ℕ}
      → (length indices == 0) ≡ false
      → run_selective indices acks acked ≡ ok r
      → in_order r.0.sent r.0.rest ≡ indices
  unfolding run_selective initial_selection in_order
  run_selective-in_order indices acks acked some_asked h =
      let (s, started, next) = bind_ok (initial_selection indices) _ (rw some_asked at h) in
      await_acks-in_order (length indices) acks acked s next
      ∙ top_up-in_order (λ sent_count. ltb sent_count window_size) indices 0 [] started
