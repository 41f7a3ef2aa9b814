-- ===== src/Transfer/Sender.antt =====
-- crates/cypher-transfer/src/sender.rs: the windowed transfer of `TransferSender::run`. The acks that
-- the channel gives are a list, and its end is the closed channel. The set of acks is a list without
-- repetitions, of which only the size is used.
pub mod Window
pub mod Outcome
use cypher.Prelude.{
  ℕ, zero, suc, ◌+◌, ◌-◌, ◌%◌, ◌^◌, Bool, true, false, ◌&&◌, ◌||◌, List, [], ◌∷◌, length, ltb, leb,
  ◌==◌, if◌then◌else◌, Error, transfer, Result, ok, err, ◌>>=◌,
}

-- The next chunk, and the chunks sent so far, the last one first.
pub record Progress : Type 0 where
  pub next_to_send : ℕ
  pub sent : List ℕ

unfoldable pub contains : ℕ → List ℕ → Bool
contains index [] = false
contains index (i ∷ acked) = (i == index) || contains index acked

-- `HashSet::insert`
unfoldable pub insert_ack : ℕ → List ℕ → List ℕ
insert_ack index acked = if contains index acked then acked else index ∷ acked

-- `transmit` reads and sends one chunk.
module _ (transmit : ℕ → Result Error (Unit {0})) (total window_size : ℕ) where
  unfoldable pub send_next : Progress → Result Error Progress
  send_next s = transmit s.next_to_send >>= λ _.
      ok (record { next_to_send = s.next_to_send + 1; sent = s.next_to_send ∷ s.sent })

  -- The first `while`; a round sends a chunk, so that `total` rounds are enough.
  unfoldable pub initial_window : (rounds : ℕ) → Progress → Result Error Progress
  initial_window zero s = ok s
  initial_window (suc rounds) s =
      let more = send_next s >>= λ s'. initial_window rounds s' in
      if ltb s.next_to_send total && ltb s.next_to_send window_size then more else ok s

  -- `next_to_send as usize - self.acked.len()`, which wraps.
  unfoldable pub in_flight : Progress → (acked : ℕ) → ℕ
  in_flight s acked = (s.next_to_send + 2 ^ 64 - acked) % 2 ^ 64

  -- The `while` that keeps the window full.
  unfoldable pub fill : (rounds acked : ℕ) → Progress → Result Error Progress
  fill zero acked s = ok s
  fill (suc rounds) acked s =
      let more = send_next s >>= λ s'. fill rounds acked s' in
      if ltb s.next_to_send total
      then if leb window_size (in_flight s acked) then ok s else more
      else ok s

  unfoldable pub process_acks : (acks acked : List ℕ) → Progress → Result Error (Progress × List ℕ)
  process_acks [] acked s =
      if ltb (length acked) total
      then err (transfer "ack channel closed prematurely")
      else ok (s, acked)
  process_acks (ack_index ∷ acks) acked s =
      let acked' = insert_ack ack_index acked in
      let more = fill total (length acked') s >>= λ s'. process_acks acks acked' s' in
      if ltb (length acked) total then more else ok (s, acked)

  unfoldable pub run : (acks acked : List ℕ) → Result Error (Progress × List ℕ)
  run acks acked =
      let start : Progress = record { next_to_send = 0; sent = [] } in
      let more = initial_window total start >>= λ s. process_acks acks acked s in
      if total == 0 then ok (start, acked) else more
