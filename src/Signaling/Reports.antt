-- ===== src/Signaling/Reports.antt =====
-- services/signaling/src/peer.rs: a history of registrations and their ends, against the latest word
-- on each peer.
use cypher.Prelude.{
  ℕ, ◌-◌, ◌≡◌, ◌≢◌, refl, sym, ap, ◌∙◌, inl, inr, true, Option, none, some, List, length, ◌==◌,
  ==_iff, if◌then◌else◌, Bool-cases, Option-cases, arith,
}
use cypher.Prelude.Bytes.{Bytes}
use cypher.Prelude.Assoc.{
  lookup, insert, remove, nat_eq, bytes_Eq, beq_refl, beq_ne, key_cases, lookup-remove_self,
  lookup-remove_ne, length-insert_known, some_injective,
}
use cypher.Prelude.Maps.{
  insert-IsMap, remove-IsMap, lookup-remove, length-insert_new, length-remove_known, some-none,
}
use cypher.Signaling.State.{Service, PeerSession}
use cypher.Signaling.Peers.{
  register_script, set_session, handle_session_register, deregister_script,
  handle_session_deregister,
}
use cypher.Signaling.Sessions.{
  id_of, id_of-some, session_of, IsPaired, IsOwn, IsCleared, same-IsCleared, removed-IsCleared,
  forth_after, back_after,
}

module _ (node_id : Bytes) (n : ℕ) (p : Bytes) (s : Service) (paired : IsPaired s)
    (own : IsOwn n p s) where
  abbrev new : PeerSession
  new = record { gateway_node = node_id; session_id = n }

  -- The three results of the script.
  record Outcome (s' : Service) : Type 0 where
    reverse' : List (ℕ × Bytes)
    cleared : IsCleared s n p reverse'
    sessions_set : s'.sessions ≡ insert p new s.sessions
    reverse_set : s'.reverse ≡ insert n p reverse'
    gauge_set : s'.peer_sessions ≡ length (insert p new s.sessions)

  registered-Outcome : Outcome (handle_session_register node_id n p s)
  unfolding handle_session_register register_script set_session
  registered-Outcome = elim (Option-cases (lookup p s.sessions)) [
    | inl absent ↦
        rw (absent, handle_session_register, register_script)
          (record {
            reverse' = s.reverse;
            cleared = same-IsCleared s n p paired (inl (ap id_of absent));
            sessions_set = refl;
            reverse_set = refl;
            gauge_set = omega (arith, length-insert_new p new s.sessions absent, paired.gauge);
          })
    | inr (old, found) ↦ elim (Bool-cases (old.session_id == n)) [
      | inl same ↦
          rw (found, same, handle_session_register, register_script)
            (record {
              reverse' = s.reverse;
              cleared = same-IsCleared s n p paired (
                  inr (ap id_of found ∙ ap (λ (x : ℕ). some x) ((==_iff old.session_id n).0 same)));
              sessions_set = refl;
              reverse_set = refl;
              gauge_set = omega (arith, length-insert_known p new s.sessions found, paired.gauge);
            })
      | inr other ↦
          rw (found, other, handle_session_register, register_script)
            (record {
              reverse' = remove old.session_id s.reverse;
              cleared = removed-IsCleared s n p paired old.session_id (ap id_of found);
              sessions_set = refl;
              reverse_set = refl;
              gauge_set = omega (arith, length-insert_known p new s.sessions found, paired.gauge);
            })
    ]
  ]

  pub sessions_registered :
      (handle_session_register node_id n p s).sessions ≡ insert p new s.sessions
  sessions_registered = registered-Outcome.sessions_set

  pub register-IsPaired : IsPaired (handle_session_register node_id n p s)
  register-IsPaired =
      let o = registered-Outcome in
      record {
        forth = λ q k.
            rw (o.sessions_set, o.reverse_set)
              (forth_after new p s o.reverse' paired own o.cleared q k);
        back = λ q k.
            rw (o.sessions_set, o.reverse_set)
              (back_after new p s o.reverse' paired own o.cleared q k);
        sessions_once = rw o.sessions_set (insert-IsMap p new s.sessions paired.sessions_once);
        gauge = o.gauge_set ∙ ap length (sym o.sessions_set);
      }

-- A peer's session after the end of a session.
unfoldable pub unless_ended : ℕ → Option ℕ → Option ℕ
unless_ended n none = none
unless_ended n (some m) = if m == n then none else some m

unless_ended_self : (n : ℕ) → unless_ended n (some n) ≡ none
unfolding unless_ended
unless_ended_self n = rw (beq_refl nat_eq n) refl

unless_ended_other : (n : ℕ) (o : Option ℕ) → o ≢ some n → unless_ended n o ≡ o
unfolding unless_ended
unless_ended_other n none h = refl
unless_ended_other n (some m) h = rw (beq_ne nat_eq m n (λ e. h (ap (λ (x : ℕ). some x) e))) refl

module _ (n : ℕ) (s : Service) (paired : IsPaired s) where
  pub record Ended (s' : Service) : Type 0 where
    pub paired' : IsPaired s'
    pub view : (q : Bytes) → session_of q s' ≡ unless_ended n (session_of q s)

  removed_both :
      (p : Bytes)
      → lookup n s.reverse ≡ some p
      → Ended (record s {
        sessions = remove p s.sessions;
        reverse = remove n s.reverse;
        peer_sessions = s.peer_sessions - 1;
      })
  removed_both p found =
      let at_p = paired.back p n found in
      let (old, there) = id_of-some (lookup p s.sessions) at_p in
      record {
        paired' = record {
          forth = λ q k after. elim (key_cases p q) [
            | inl same ↦ absurd (
                some-none (
                  sym after
                  ∙ ap id_of (
                      ap (λ x. lookup x (remove p s.sessions)) (sym same)
                      ∙ lookup-remove_self p s.sessions)))
            | inr apart ↦
                let before = sym (ap id_of (lookup-remove_ne p q s.sessions apart)) ∙ after in
                let reversed = paired.forth q k before in
                lookup-remove_ne n k s.reverse (λ same.
                  apart (some_injective (sym found ∙ ap (λ j. lookup j s.reverse) same ∙ reversed)))
                ∙ reversed
          ];
          back = λ q k after.
              let before = paired.back q k (lookup-remove n k s.reverse after) in
              let apart : p ≢ q = λ same. some-none (
                sym after
                ∙ ap (λ j. lookup j (remove n s.reverse))
                    (some_injective (sym before ∙ ap (λ x. session_of x s) (sym same) ∙ at_p))
                ∙ lookup-remove_self n s.reverse) in
              ap id_of (lookup-remove_ne p q s.sessions apart) ∙ before;
          sessions_once = remove-IsMap p s.sessions paired.sessions_once;
          gauge =
              omega
                (arith, length-remove_known p s.sessions paired.sessions_once there, paired.gauge);
        };
        view = λ q. elim (key_cases p q) [
          | inl same ↦
              rw (← same, lookup-remove_self p s.sessions)
                (sym (ap (unless_ended n) at_p ∙ unless_ended_self n))
          | inr apart ↦
              ap id_of (lookup-remove_ne p q s.sessions apart)
              ∙ sym (
                  unless_ended_other n (session_of q s)
                    (λ held. apart (some_injective (sym found ∙ paired.forth q n held))))
        ];
      }

  pub ended : Ended (handle_session_deregister n s)
  unfolding handle_session_deregister deregister_script
  ended = elim (Option-cases (lookup n s.reverse)) [
    | inl absent ↦
        rw (absent, handle_session_deregister)
          (record {
            paired' = paired;
            view = λ q. sym (
                unless_ended_other n (session_of q s)
                  (λ held. some-none (sym (paired.forth q n held) ∙ absent)));
          })
    | inr (p, found) ↦
        let (old, there) = id_of-some (lookup p s.sessions) (paired.back p n found) in
        let same : (old.session_id == n) ≡ true =
          (==_iff old.session_id n).1
            (some_injective (sym (ap id_of there) ∙ paired.back p n found)) in
        rw (found, handle_session_deregister, there, same, deregister_script) (removed_both p found)
  ]
