-- ===== src/Transfer/Sender/Outcome.antt =====
-- What a run that returns has sent, and that it returns when every chunk is acknowledged.
use cypher.Prelude.{
  ℕ, zero, suc, ◌+◌, ◌^◌, ◌≤◌, ◌<◌, ◌≡◌, refl, sym, ap, subst, ◌∙◌, inl, inr, ◌&&◌, List, [], ◌∷◌,
  length, ltb, leb, ◌==◌, le→ltb, ltb→le, Error, Result, ok, err, bind_ok, arith, Bool-cases,
}
use cypher.Transfer.Sender.{
  Progress, insert_ack, send_next, initial_window, in_flight, fill, process_acks, run,
}
use cypher.Transfer.Sender.Window.{
  upto, length-insert_ack, ok_first, InOrder, Full, initial_window-Full, fill-Full,
}

err_not_ok :
    {e : Error} {a : Progress × List ℕ}
    → ◌≡◌ {A = Result Error (Progress × List ℕ)} (err e) (ok a)
    → ⊥
err_not_ok h = cc

-- The distinct acks of a list, put into a set.
abbrev pub collect : (acks acked : List ℕ) → List ℕ
collect [] acked = acked
collect (i ∷ acks) acked = collect acks (insert_ack i acked)

module _ (transmit : ℕ → Result Error (Unit {0})) (total window_size : ℕ) where
  process_acks-Full :
      (acks acked : List ℕ) (s : Progress) {s' : Progress} {acked' : List ℕ}
      → 1 ≤ window_size
      → total < 2 ^ 64
      → Full total window_size (length acked) s
      → process_acks transmit total window_size acks acked s ≡ ok (s', acked')
      → InOrder s' × (s'.next_to_send ≡ total)
  unfolding process_acks
  process_acks-Full [] acked s {s'} some_window range (order, full) h =
      elim (Bool-cases (ltb (length acked) total)) [
        | inl short ↦ absurd (err_not_ok (rw short at h))
        | inr done ↦
            subst (λ (t : Progress). InOrder t × (t.next_to_send ≡ total)) (ok_first (rw done at h))
              (order, omega (arith, ltb→le (length acked) total done))
      ]
  process_acks-Full (i ∷ acks) acked s {s'} some_window range (order, full) h =
      elim (Bool-cases (ltb (length acked) total)) [
        | inl going ↦
            let acked' = insert_ack i acked in
            let (grows, slowly) = length-insert_ack i acked in
            let (t, filled, rest) =
              bind_ok (fill transmit total window_size total (length acked') s)
                (λ t. process_acks transmit total window_size acks acked' t) (rw going at h) in
            process_acks-Full acks acked' t some_window range
              (fill-Full transmit total window_size total (length acked') s t range (omega arith)
                (omega (arith, slowly)) (omega (arith, grows)) order filled)
              rest
        | inr done ↦
            subst (λ (t : Progress). InOrder t × (t.next_to_send ≡ total)) (ok_first (rw done at h))
              (order, omega (arith, ltb→le (length acked) total done))
      ]

  abbrev start : Progress
  start = record { next_to_send = 0; sent = [] }

  -- With a window of at least one chunk, a run of a new sender that returns without an error has sent
  -- every chunk once and in order, whatever indices the acks name: the subtraction of the window never
  -- wraps.
  pub run_sent :
      (acks : List ℕ) (s : Progress) (acked : List ℕ)
      → 1 ≤ window_size
      → total < 2 ^ 32
      → run transmit total window_size acks [] ≡ ok (s, acked)
      → (s.sent ≡ upto total) × (s.next_to_send ≡ total)
  unfolding run
  run_sent acks s acked some_window range h = elim (Bool-cases (total == 0)) [
    | inl empty ↦
        let no_chunks : total ≡ 0 = ground arith in
        subst (λ (t : Progress). (t.sent ≡ upto total) × (t.next_to_send ≡ total))
          (ok_first (rw empty at h)) (rw no_chunks refl, sym no_chunks)
    | inr some_chunks ↦
        let (t, first, rest) =
          bind_ok (initial_window transmit total window_size total start)
            (λ t. process_acks transmit total window_size acks [] t) (rw some_chunks at h) in
        let full =
          initial_window-Full transmit total window_size total start t (omega arith) (omega arith)
            refl first in
        let (order, end) = process_acks-Full acks [] t some_window (omega arith) full rest in
        (order ∙ ap upto end, end)
  ]

  -- Sending never fails.
  module _ (works : (i : ℕ) → transmit i ≡ ok tt) where
    initial_window_total :
        (rounds : ℕ) (s : Progress)
        → (t : Progress) × (initial_window transmit total window_size rounds s ≡ ok t)
    unfolding initial_window send_next
    initial_window_total zero s = (s, refl)
    initial_window_total (suc rounds) s =
        elim (Bool-cases (ltb s.next_to_send total && ltb s.next_to_send window_size)) [
          | inl going ↦
              let (t, e) =
                initial_window_total rounds
                  (record { next_to_send = s.next_to_send + 1; sent = s.next_to_send ∷ s.sent }) in
              (t, rw (going, works s.next_to_send) e)
          | inr full ↦ (s, rw full)
        ]

    fill_total :
        (rounds acked : ℕ) (s : Progress)
        → (t : Progress) × (fill transmit total window_size rounds acked s ≡ ok t)
    unfolding fill send_next
    fill_total zero acked s = (s, refl)
    fill_total (suc rounds) acked s = elim (Bool-cases (ltb s.next_to_send total)) [
      | inr over ↦ (s, rw over)
      | inl more ↦
          (elim (Bool-cases (leb window_size (in_flight transmit total window_size s acked))) [
            | inl full ↦ (s, rw (more, full))
            | inr room ↦
                let (t, e) =
                  fill_total rounds acked (record {
                    next_to_send = s.next_to_send + 1;
                    sent = s.next_to_send ∷ s.sent;
                  }) in
                (t, rw (more, room, works s.next_to_send) e)
          ])
    ]

    process_acks_total :
        (acks acked : List ℕ) (s : Progress)
        → total ≤ length (collect acks acked)
        → (r : Progress × List ℕ) × (process_acks transmit total window_size acks acked s ≡ ok r)
    unfolding process_acks
    process_acks_total [] acked s enough = ((s, acked), rw (le→ltb (length acked) total enough))
    process_acks_total (i ∷ acks) acked s enough = elim (Bool-cases (ltb (length acked) total)) [
      | inr done ↦ ((s, acked), rw done)
      | inl going ↦
          let (t, filled) = fill_total total (length (insert_ack i acked)) s in
          let (r, e) = process_acks_total acks (insert_ack i acked) t enough in
          (r, rw (going, filled) e)
    ]

    returns :
        (acks : List ℕ)
        → total ≤ length (collect acks [])
        → (r : Progress × List ℕ) × (run transmit total window_size acks [] ≡ ok r)
    unfolding run
    returns acks enough = elim (Bool-cases (total == 0)) [
      | inl empty ↦ ((start, []), rw empty)
      | inr some_chunks ↦
          let (t, first) = initial_window_total total start in
          let (r, e) = process_acks_total acks [] t enough in (r, rw (some_chunks, first) e)
    ]

    -- When every chunk can be sent, the window is at least one chunk, and the acks name at least as many
    -- indices as there are chunks, a run of a new sender returns, and has sent every chunk in order.
    pub run_total :
        (acks : List ℕ)
        → 1 ≤ window_size
        → total < 2 ^ 32
        → total ≤ length (collect acks [])
        → (r : Progress × List ℕ) × (run transmit total window_size acks [] ≡ ok r)
          × (r.0.sent ≡ upto total)
    run_total acks some_window range enough =
        let (r, e) = returns acks enough in (r, e, (run_sent acks r.0 r.1 some_window range e).0)
