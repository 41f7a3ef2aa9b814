-- ===== src/Tests/Transfer.antt =====
-- The theorems on the windowed transfer at concrete inputs.
use cypher.Prelude.Bytes.{Bytes}
use cypher.Transfer.Sender.{contains}
use cypher.Prelude.{ℕ, ◌≡◌, refl, List, [], ◌∷◌, arith, Error, Result, ok}
use cypher.Transfer.Sender.{
  Progress, contains, insert_ack, send_next, initial_window, in_flight, fill, process_acks, run,
}
use cypher.Transfer.Sender.Window.{upto}
use cypher.Transfer.Sender.Outcome.{run_sent, run_total}

abbrev works : ℕ → Result Error (Unit {0})
works index = ok tt

abbrev finished : Progress
finished = record { next_to_send = 3; sent = 2 ∷ 1 ∷ 0 ∷ [] }

-- Three chunks, a window of two, and the first ack twice.
three_sent : run works 3 2 (0 ∷ 0 ∷ 2 ∷ 1 ∷ []) [] ≡ ok (finished, 1 ∷ 2 ∷ 0 ∷ [])
unfolding run initial_window process_acks fill send_next in_flight insert_ack contains
three_sent = refl

run_sent_example : (finished.sent ≡ upto 3) × (finished.next_to_send ≡ 3)
run_sent_example =
    run_sent works 3 2 (0 ∷ 0 ∷ 2 ∷ 1 ∷ []) finished (1 ∷ 2 ∷ 0 ∷ []) (omega arith) (omega arith)
      three_sent

run_total_example :
    (r : Progress × List ℕ) × (run works 3 2 (0 ∷ 2 ∷ 1 ∷ []) [] ≡ ok r) × (r.0.sent ≡ upto 3)
run_total_example =
    run_total works 3 2 (λ i. refl) (0 ∷ 2 ∷ 1 ∷ []) (omega arith) (omega arith)
      (unfold insert_ack contains in omega arith)

-- A file of three bytes, whose one chunk comes twice; a file is its own hash here.
abbrev small_file : Bytes
small_file = 1 ∷ 2 ∷ 3 ∷ []

abbrev own_hash : Bytes → Bytes
own_hash bytes = bytes
