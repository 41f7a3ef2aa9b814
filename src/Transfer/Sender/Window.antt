-- ===== src/Transfer/Sender/Window.antt =====
-- The window, and what a finished run has sent.
use cypher.Prelude.{
  ℕ, zero, suc, ◌+◌, ◌-◌, ◌^◌, ◌≤◌, ◌<◌, ◌≡◌, sym, ap, subst, inl, inr, ◌&&◌, min, List, [], ◌∷◌,
  length, ltb, leb, ltb→lt, ltb→le, Error, Result, ok, err, bind_ok, arith, Bool-cases,
}
use cypher.Transfer.Sender.{Progress, insert_ack, send_next, initial_window, in_flight, fill}

-- The numbers below `n`, the largest first.
abbrev pub upto : ℕ → List ℕ
upto zero = []
upto (suc n) = n ∷ upto n

pub length-insert_ack :
    (i : ℕ) (acked : List ℕ)
    → (length acked ≤ length (insert_ack i acked))
      × (length (insert_ack i acked) ≤ length acked + 1)
unfolding insert_ack
length-insert_ack i acked = (ground arith, ground arith)

ok_progress : {s t : Progress} → ◌≡◌ {A = Result Error Progress} (ok s) (ok t) → s ≡ t
ok_progress {s} h = ap (λ (r : Result Error Progress). elim r [ ok a ↦ a | err e ↦ s ]) h

pub ok_first :
    {s t : Progress} {a b : List ℕ}
    → ◌≡◌ {A = Result Error (Progress × List ℕ)} (ok (s, a)) (ok (t, b))
    → s ≡ t
ok_first {s} h = ap (λ (r : Result Error (Progress × List ℕ)). elim r [ ok p ↦ p.0 | err e ↦ s ]) h

-- Every chunk before the next one was sent, in order.
abbrev pub InOrder : Progress → Type 0
InOrder s = s.sent ≡ upto s.next_to_send

-- With `acked` acks the window is full: its end or the last chunk is reached.
abbrev pub Full : (total window_size acked : ℕ) → Progress → Type 0
Full total window_size acked s = InOrder s × (s.next_to_send ≡ min total (acked + window_size))

abbrev advance : Progress → Progress
advance s = record { next_to_send = s.next_to_send + 1; sent = s.next_to_send ∷ s.sent }

InOrder-advance : (s : Progress) → InOrder s → InOrder (advance s)
InOrder-advance s h =
    let next : s.next_to_send + 1 ≡ suc s.next_to_send = omega arith in
    rw next (ap (◌∷◌ s.next_to_send) h)

module _ (transmit : ℕ → Result Error (Unit {0})) (total window_size : ℕ) where
  send_next-advance :
      (s s' : Progress) → send_next transmit total window_size s ≡ ok s' → s' ≡ advance s
  unfolding send_next
  send_next-advance s s' h =
      let (u, _, e) = bind_ok {B = Progress} (transmit s.next_to_send) (λ x. ok (advance s)) h in
      sym (ok_progress e)

  pub initial_window-Full :
      (rounds : ℕ) (s s' : Progress)
      → total ≤ rounds + s.next_to_send
      → s.next_to_send ≤ min total window_size
      → InOrder s
      → initial_window transmit total window_size rounds s ≡ ok s'
      → Full total window_size 0 s'
  unfolding initial_window
  initial_window-Full zero s s' enough low order h =
      subst (Full total window_size 0) (ok_progress h) (order, omega arith)
  initial_window-Full (suc rounds) s s' enough low order h =
      elim (Bool-cases (ltb s.next_to_send total && ltb s.next_to_send window_size)) [
        | inl going ↦
            let (t, step, rest) =
              bind_ok (send_next transmit total window_size s)
                (λ t. initial_window transmit total window_size rounds t) (rw going at h) in
            initial_window-Full rounds (advance s) s' (omega arith) (ground arith)
              (InOrder-advance s order) (rw (send_next-advance s t step) at rest)
        | inr full ↦
            subst (Full total window_size 0) (ok_progress (rw full at h)) (order, ground arith)
      ]

  in_flight_lem :
      (s : Progress) (acked : ℕ)
      → acked ≤ s.next_to_send
      → s.next_to_send < 2 ^ 64
      → in_flight transmit total window_size s acked ≡ s.next_to_send - acked
  unfolding in_flight
  in_flight_lem s acked h range = omega arith

  pub fill-Full :
      (rounds acked : ℕ) (s s' : Progress)
      → total < 2 ^ 64
      → total ≤ rounds + s.next_to_send
      → min total acked ≤ s.next_to_send
      → s.next_to_send ≤ min total (acked + window_size)
      → InOrder s
      → fill transmit total window_size rounds acked s ≡ ok s'
      → Full total window_size acked s'
  unfolding fill
  fill-Full zero acked s s' range enough high low order h =
      subst (Full total window_size acked) (ok_progress h) (order, omega arith)
  fill-Full (suc rounds) acked s s' range enough high low order h =
      elim (Bool-cases (ltb s.next_to_send total)) [
        | inr over ↦
            subst (Full total window_size acked) (ok_progress (rw over at h))
              (order, omega (arith, ltb→le s.next_to_send total over))
        | inl more ↦
            let below = ltb→lt s.next_to_send total more in
            let flight = in_flight_lem s acked (omega (arith, below)) (omega (arith, below)) in
            (elim (Bool-cases (leb window_size (in_flight transmit total window_size s acked))) [
              | inl full ↦
                  subst (Full total window_size acked) (ok_progress (rw (more, full) at h))
                    (order, ground (arith, flight, below))
              | inr room ↦
                  let (t, step, rest) =
                    bind_ok (send_next transmit total window_size s)
                      (λ t. fill transmit total window_size rounds acked t)
                      (rw (more, room) at h) in
                  fill-Full rounds acked (advance s) s' range (omega arith) (omega arith)
                    (ground (arith, flight, below)) (InOrder-advance s order)
                    (rw (send_next-advance s t step) at rest)
            ])
      ]
