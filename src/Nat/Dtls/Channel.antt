-- ===== src/Nat/Dtls/Channel.antt =====
-- A sender and a receiver over a network that loses datagrams, and what `recv` takes from a socket.
use cypher.Prelude.{
  ap₂, ℕ, ◌+◌, ◌-◌, ◌^◌, ◌<◌, ◌≡◌, refl, sym, ap, subst, ◌∙◌, inl, inr, Bool, true, false, Option,
  none, some, List, [], ◌∷◌, ◌++◌, append_assoc, length, take, drop, take-append, drop-append,
  length-append, ==_iff, ◌==◌, if◌then◌else◌, Error, Result, ok, err, arith, Bool-cases,
  Option-cases,
}
use cypher.Prelude.Bytes.{Bytes, to_le, from_le, length-to_le, from_le-to_le}
use cypher.Crypto.Primitives.{Primitives, IsHmac}
use cypher.Nat.Dtls.{
  DtlsSession, header_len, seal, send_authenticated, verify_and_strip, Event, datagram, recv_failed,
  elapsed, recv,
}
use cypher.Nat.Dtls.Replay.{
  seq_of, IsAccepted, advanced, verify_and_strip_accepted, verify_and_strip_iff,
  verify_and_strip_refused,
}

module _ (p : Primitives) (laws : IsHmac p) where
  -- What a peer seals under the session's key with a number above the last one is accepted.
  pub verify_and_strip-seal :
      (s : DtlsSession) (n : ℕ) (payload : Bytes)
      → n < 2 ^ 64
      → s.recv_seq < n
      → IsAccepted p s (seal p s.hmac_key n payload) payload
        × (seq_of (seal p s.hmac_key n payload) ≡ n)
  unfolding seal
  verify_and_strip-seal s n payload range new =
      let tag = p.hmac s.hmac_key (to_le 8 n ++ payload) in
      let number : take 8 (to_le 8 n ++ (tag ++ payload)) ≡ to_le 8 n =
        take-append 8 (to_le 8 n) (tag ++ payload) (length-to_le 8 n) in
      let behind : drop 8 (to_le 8 n ++ (tag ++ payload)) ≡ tag ++ payload =
        drop-append 8 (to_le 8 n) (tag ++ payload) (length-to_le 8 n) in
      let tag_length : length tag ≡ 32 = laws.length-hmac s.hmac_key (to_le 8 n ++ payload) in
      let seq : seq_of (to_le 8 n ++ (tag ++ payload)) ≡ n =
        ap from_le number ∙ from_le-to_le 8 n range in
      let body : drop header_len (to_le 8 n ++ (tag ++ payload)) ≡ payload =
        rw (← append_assoc (to_le 8 n) tag payload) (
          drop-append header_len (to_le 8 n ++ tag) payload
            (omega (arith, length-append (to_le 8 n) tag, length-to_le 8 n, tag_length))) in
      (
        record {
          has_header = omega (
            arith,
            length-append (to_le 8 n) (tag ++ payload),
            length-append tag payload,
            length-to_le 8 n,
            tag_length,
          );
          authentic =
              rw (number, behind) (take-append (40 - 8) tag payload (tag_length ∙ omega arith));
          fresh = omega (arith, seq);
          stripped = sym body;
        },
        seq,
      )

-- Each payload is sent with the sender's next number; the flag is whether its datagram arrives.
unfoldable pub transmit :
    Primitives → DtlsSession → DtlsSession → List (Bool × Bytes) → List (Option Bytes)
transmit p sender receiver [] = []
transmit p sender receiver ((arrives, payload) ∷ rest) =
    let (sent, sender') = send_authenticated p true sender payload in
    elim sent [
      | ok packet ↦
          let (received, receiver') = verify_and_strip p receiver packet in
          let lost = transmit p sender' receiver rest in
          let kept = received ∷ transmit p sender' receiver' rest in if arrives then kept else lost
      | err e ↦ transmit p sender' receiver rest
    ]

-- The payloads that arrive.
abbrev pub arriving : List (Bool × Bytes) → List (Option Bytes)
arriving [] = []
arriving ((true, payload) ∷ rest) = some payload ∷ arriving rest
arriving ((false, payload) ∷ rest) = arriving rest

-- Two sessions with one key, the receiver behind the sender's counter, which does not wrap: whatever
-- datagrams are lost, each one that arrives is accepted with the payload that was sent.
pub transmit-arriving :
    (p : Primitives)
    → IsHmac p
    → (payloads : List (Bool × Bytes)) (sender receiver : DtlsSession)
    → receiver.hmac_key ≡ sender.hmac_key
    → receiver.recv_seq < sender.send_seq
    → sender.send_seq + length payloads < 2 ^ 64
    → transmit p sender receiver payloads ≡ arriving payloads
unfolding transmit send_authenticated
transmit-arriving p laws [] sender receiver key behind room = refl
transmit-arriving p laws ((false, payload) ∷ rest) sender receiver key behind room =
    transmit-arriving p laws rest _ receiver key (omega arith) (omega arith)
transmit-arriving p laws ((true, payload) ∷ rest) sender receiver key behind room =
    let sealed =
      verify_and_strip-seal p laws receiver sender.send_seq payload (omega arith) behind in
    let packet = seal p sender.hmac_key sender.send_seq payload in
    let (accepted, number) =
      subst
        (λ (k : Bytes).
          IsAccepted p receiver (seal p k sender.send_seq payload) payload
          × (seq_of (seal p k sender.send_seq payload) ≡ sender.send_seq))
        key sealed in
    rw (verify_and_strip_accepted p receiver packet payload accepted) (
      ap (◌∷◌ (some payload)) (
        transmit-arriving p laws rest _ (advanced p receiver packet) key (omega (arith, number))
          (omega arith)))

-- What `recv` returned: the packet that it came in, with the events before it.
abbrev pub Took : Primitives → DtlsSession → List Event → Bytes → DtlsSession → List Event → Type 0
Took p s events payload s' rest =
    (before : List Event) × (packet : Bytes) × (events
      ≡ before ++ (datagram s.remote packet ∷ rest))
    × IsAccepted p s packet payload
    × (s' ≡ advanced p s packet)

prepend :
    (p : Primitives) (s : DtlsSession) (e : Event) (events : List Event) (payload : Bytes)
    (s' : DtlsSession) (rest : List Event)
    → Took p s events payload s' rest
    → Took p s (e ∷ events) payload s' rest
prepend p s e events payload s' rest (before, packet, at_place, accepted, moved) =
    (e ∷ before, packet, ap (◌∷◌ e) at_place, accepted, moved)

abbrev Answer : Type 0
Answer = Result Error (Option Bytes) × DtlsSession × List Event

abbrev given : Bytes → Answer → Bytes
given d (ok (some payload), s, es) = payload
given d (ok none, s, es) = d
given d (err e, s, es) = d

answers :
    {a b : Bytes} {s t : DtlsSession} {es fs : List Event}
    → ◌≡◌ {A = Answer} (ok (some a), s, es) (ok (some b), t, fs)
    → (a ≡ b) × (s ≡ t) × (es ≡ fs)
answers {a} h = (ap (given a) h, ap (λ (r : Answer). r.1) h, ap (λ (r : Answer). r.2) h)

-- A payload that `recv` returns came in a datagram from the session's peer that `verify_and_strip`
-- accepts; what came before it left the session as it was, and what comes after it is still there.
pub recv-IsAccepted :
    (p : Primitives) (s : DtlsSession) (events : List Event) (payload : Bytes) (s' : DtlsSession)
    (rest : List Event)
    → recv p s events ≡ (ok (some payload), s', rest)
    → Took p s events payload s' rest
unfolding recv
recv-IsAccepted p s [] payload s' rest h = absurd (ground arith)
recv-IsAccepted p s (recv_failed ∷ events) payload s' rest h = absurd (ground arith)
recv-IsAccepted p s (elapsed ∷ events) payload s' rest h = absurd (ground arith)
recv-IsAccepted p s (datagram from packet ∷ events) payload s' rest h =
    elim (Bool-cases (from == s.remote)) [
      | inr wrong ↦
          prepend p s _ events payload s' rest
            (recv-IsAccepted p s events payload s' rest (rw wrong at h))
      | inl right ↦ (elim (Option-cases (verify_and_strip p s packet).0) [
        | inl refused ↦
            let same : (verify_and_strip p s packet).1 ≡ s =
              ap (λ (r : Option Bytes × DtlsSession). r.1)
                (verify_and_strip_refused p s packet refused) in
            prepend p s _ events payload s' rest (
              recv-IsAccepted p s events payload s' rest (
                subst (λ (t : DtlsSession). recv p t events ≡ (ok (some payload), s', rest)) same
                  (rw (right, refused) at h)))
        | inr (taken, e) ↦
            let (one, two, three) = answers (rw (right, e) at h) in
            let accepted = (verify_and_strip_iff p s packet payload).0 (e ∙ ap some one) in
            (
              [],
              packet,
              ap₂ (λ (f : ℕ) (es : List Event). datagram f packet ∷ es)
                  ((==_iff from s.remote).0 right) three,
              accepted,
              sym two
                  ∙ ap (λ (r : Option Bytes × DtlsSession). r.1)
                      (verify_and_strip_accepted p s packet payload accepted),
            )
      ])
    ]
