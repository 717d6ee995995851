-- ===== src/Service/Assertions/OneUse.antt =====
-- An assertion that the Service accepted is not accepted again, if the clock does not go back.
use aep_python.Common.{
  ℕ, ◌+◌, ◌≤◌, ◌<◌, String, ◌≡◌, sym, ap, ◌∙◌, inl, inr, true, false, Option, none, some, List, [],
  ◌∷◌, arith, ◌==◌, nat_eq, string_eq, pair_eq, list_eq, Bool-cases,
}
use aep_python.Common.Exec.{ok, Exec, ◌>>=◌, >>=-eq-ok}
use aep_python.Common.Dict.{IsDict}
use aep_python.Service.Time.{DateTime, timestamp}
use aep_python.Service.Replay.{ReplayRecord, consume, replay_key}
use aep_python.Service.Settings.{
  AssertionOperation, AssertionClaims, JoseHeader, CommandOptions, VerificationContext, Settings,
  Ports, State, on_world, now_of,
}
use aep_python.Service.Replay.SingleUse.{consume_all, Before, accepted_once}
use aep_python.Service.Assertions.{
  valid_assertion, in_window, consumed, accepted, authenticate_assertion, replay_record, verified,
  caught,
}

abbrev pub UpTo : ℕ → List (ReplayRecord × ℕ) → Type 0
UpTo t [] = Unit
UpTo t ((r, now) ∷ calls) = (now ≤ t) × UpTo t calls

UpTo-Before : (t u : ℕ) (calls : List (ReplayRecord × ℕ)) → t < u → UpTo t calls → Before u calls
UpTo-Before t u [] h c = tt
UpTo-Before t u ((r, now) ∷ calls) h (c, cs) = (omega arith, UpTo-Before t u calls h cs)

module _ {W : Type 0} (settings : Settings) (ports : Ports W) where
  -- an accepted assertion was inside its window, and its record was new
  accepted_stores :
      (operation : AssertionOperation) (resource : Option String) (now : DateTime)
      (header : JoseHeader) (c c' : AssertionClaims) (s : State W)
      → (accepted settings ports operation resource now (some (header, c)) s).0 ≡ ok (some c')
      → ((accepted settings ports operation resource now (some (header, c)) s).1.replay
          ≡ (consume (replay_record settings ports c) (timestamp now) s.replay).1)
        × ((consume (replay_record settings ports c) (timestamp now) s.replay).0 ≡ ok true)
        × (valid_assertion settings ports header c operation resource now ≡ true)
        × (c' ≡ c)
  unfolding accepted consumed
  accepted_stores operation resource now header c c' s h =
      (ground arith, ground arith, ground arith, ground arith)

  valid-in_window :
      (operation : AssertionOperation) (resource : Option String) (now : DateTime)
      (header : JoseHeader) (c : AssertionClaims)
      → valid_assertion settings ports header c operation resource now ≡ true
      → in_window settings ports c (timestamp now) ≡ true
  unfolding valid_assertion
  valid-in_window operation resource now header c h = ground arith

  in_window-lt :
      (c : AssertionClaims) (current : ℕ)
      → in_window settings ports c current ≡ true
      → current < c.exp + settings.clock_tolerance
  unfolding in_window
  in_window-lt c current h = ground arith

  not_accepted_twice :
      (op op' : AssertionOperation) (resource resource' : Option String) (now later : DateTime)
      (header header' : JoseHeader) (c c' d : AssertionClaims) (s t : State W)
      (calls : List (ReplayRecord × ℕ))
      → IsDict s.replay
      → (accepted settings ports op resource now (some (header, c)) s).0 ≡ ok (some c)
      → t.replay
        ≡ consume_all calls (accepted settings ports op resource now (some (header, c)) s).1.replay
      → UpTo (timestamp later) calls
      → replay_record settings ports c' ≡ replay_record settings ports c
      → ¬ ((accepted settings ports op' resource' later (some (header', c')) t).0 ≡ ok (some d))
  not_accepted_twice op op' resource resource' now later header header' c c' d s t calls u first
        more early same again =
      let (stored, fresh, valid, _) = accepted_stores op resource now header c c s first in
      let (_, fresh', valid', _) = accepted_stores op' resource' later header' c' d t again in
      let left : timestamp later < c'.exp + settings.clock_tolerance =
        in_window-lt c' (timestamp later) (valid-in_window op' resource' later header' c' valid') in
      let left' : timestamp later < c.exp + settings.clock_tolerance =
        omega (arith, ap (λ r. r.expires_at) same) in
      accepted_once s.replay (replay_record settings ports c) (replay_record settings ports c')
        (timestamp now) (timestamp later) calls u fresh
        (UpTo-Before (timestamp later) (c.exp + settings.clock_tolerance) calls left' early)
        (ap replay_key same) left' (rw (← stored) (rw (← more) fresh'))

  verified-replay :
      (options : CommandOptions) (context : VerificationContext) (s : State W)
      → (caught settings ports (verified settings ports options context) s).1.replay ≡ s.replay
  unfolding verified
  verified-replay options context s = ground arith

  now-clock : (w : W) (now : DateTime) → (now_of ports w).0 ≡ ok now → (ports.clock w).0 ≡ ok now
  unfolding now_of
  now-clock w now h = ground arith

  -- the assertion that a call accepted: the time that it read, and the state before the replay store
  abbrev Accepted :
      CommandOptions → AssertionOperation → Option String → State W → AssertionClaims → Type 0
  Accepted options op resource s c =
      (now : DateTime) × (header : JoseHeader) × (s' : State W) × ((ports.clock s.world).0 ≡ ok now)
      × (s'.replay ≡ s.replay)
      × (authenticate_assertion settings ports options op resource s
          ≡ accepted settings ports op resource now (some (header, c)) s')

  found_accepts :
      (options : CommandOptions) (op : AssertionOperation) (resource : Option String) (s : State W)
      (c : AssertionClaims) (now : DateTime) (found : Option (JoseHeader × AssertionClaims))
      (s' : State W)
      → (ports.clock s.world).0 ≡ ok now
      → s'.replay ≡ s.replay
      → (authenticate_assertion settings ports options op resource s).0 ≡ ok (some c)
      → authenticate_assertion settings ports options op resource s
        ≡ accepted settings ports op resource now found s'
      → Accepted options op resource s c
  found_accepts options op resource s c now none s' clock same h e =
      absurd (unfold accepted in cc (ap (λ x. x.0) e))
  found_accepts options op resource s c now (some (header, d)) s' clock same h e =
      let (_, _, _, is) =
        accepted_stores op resource now header d c s' (ap (λ x. x.0) (sym e) ∙ h) in
      (now, header, s', clock, same, rw is e)

  authenticate_accepts :
      (options : CommandOptions) (op : AssertionOperation) (resource : Option String) (s : State W)
      (c : AssertionClaims)
      → (authenticate_assertion settings ports options op resource s).0 ≡ ok (some c)
      → Accepted options op resource s c
  authenticate_accepts options op resource s c h =
      elim (Bool-cases (options.client_assertion == "")) [
        | inl empty ↦ absurd (unfold authenticate_assertion in ground arith)
        | inr given ↦
            let h' : ((on_world (now_of ports) >>= after) s).0 ≡ ok (some c) =
              sym (ap (λ x. x.0) (asked given)) ∙ h in
            let (now, read, ran) = >>=-eq-ok (on_world (now_of ports)) after s h' in
            let s1 : State W = (on_world (now_of ports) s).1 in
            let h2 : (after now s1).0 ≡ ok (some c) = sym (ap (λ x. x.0) ran) ∙ h' in
            let (found, _, ran') =
              >>=-eq-ok (caught settings ports (verified settings ports options (context now)))
                (accepted settings ports op resource now) s1 h2 in
            found_accepts options op resource s c now found _ (now-clock s.world now read)
              (verified-replay options (context now) s1) h (asked given ∙ ran ∙ ran')
      ]
    where
      context : DateTime → VerificationContext
      context now = record {
        current_time = now;
        idempotency_key = options.idempotency_key;
        operation = op;
        resource = resource;
      }

      after : DateTime → Exec (State W) (Option AssertionClaims)
      after now =
          caught settings ports (verified settings ports options (context now))
          >>= accepted settings ports op resource now

      asked :
          (options.client_assertion == "") ≡ false
          → authenticate_assertion settings ports options op resource s
            ≡ (on_world (now_of ports) >>= after) s
      asked given = unfold authenticate_assertion in rw given

  -- Once the Service accepted an assertion of an Agent: whatever calls used the replay store since, at
  -- seconds up to that which the clock reads now, no command and no resource request gets an
  -- assertion with the same subject, identifier and expiry accepted again.
  pub accepted_at_most_once :
      (options options' : CommandOptions) (op op' : AssertionOperation)
      (resource resource' : Option String) (s t : State W) (c d : AssertionClaims)
      (calls : List (ReplayRecord × ℕ)) (later : DateTime)
      → IsDict s.replay
      → (authenticate_assertion settings ports options op resource s).0 ≡ ok (some c)
      → t.replay
        ≡ consume_all calls (authenticate_assertion settings ports options op resource s).1.replay
      → (ports.clock t.world).0 ≡ ok later
      → UpTo (timestamp later) calls
      → replay_record settings ports d ≡ replay_record settings ports c
      → ¬ ((authenticate_assertion settings ports options' op' resource' t).0 ≡ ok (some d))
  accepted_at_most_once options options' op op' resource resource' s t c d calls later u first more
        clock early same again =
      let (now, header, s', _, replay, ran) = authenticate_accepts options op resource s c first in
      let (now', header', t', clock', replay', ran') =
        authenticate_accepts options' op' resource' t d again in
      let is : now' ≡ later = cc in
      not_accepted_twice op op' resource resource' now now' header header' c d d s' t' calls
        (rw replay u) (rw (← ran) first) (rw (← ran) (replay' ∙ more)) (rw is early) same
        (rw (← ran') again)
