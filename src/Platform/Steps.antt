-- ===== src/Platform/Steps.antt =====
-- Inversion of the steps of a `Platform` of platform/platform.py that work on one part of its state.
use aep_python.Common.{◌≡◌, sym, ap, ◌∙◌, nat_eq, string_eq, pair_eq, list_eq}
use aep_python.Common.Exec.{ok, Exec}
use aep_python.Platform.Identities.{IdentityStore}
use aep_python.Platform.Settings.{PlatformState, on_world, on_identities, ReplayStore, on_replay}

module _ {W A : Type 0} where
  pub on_world_ok :
      (m : Exec W A) (s : PlatformState W) {a : A} {t : PlatformState W}
      → on_world m s ≡ (ok a, t)
      → (m s.world ≡ (ok a, t.world)) × (t ≡ record s { world = t.world })
  on_world_ok m s {a} {t} h =
      let e : (m s.world).0 ≡ ok a = ap (λ p. p.0) h in
      let f : record s { world = (m s.world).1 } ≡ t = ap (λ p. p.1) h in
      let w : (m s.world).1 ≡ t.world = ap (λ x. x.world) f in
      (λ i. (e i, w i), sym f ∙ ap (λ w. record s { world = w }) w)

  pub on_identities_ok :
      (m : Exec IdentityStore A) (s : PlatformState W) {a : A} {t : PlatformState W}
      → on_identities m s ≡ (ok a, t)
      → (m s.identities ≡ (ok a, t.identities)) × (t ≡ record s { identities = t.identities })
  on_identities_ok m s {a} {t} h =
      let e : (m s.identities).0 ≡ ok a = ap (λ p. p.0) h in
      let f : record s { identities = (m s.identities).1 } ≡ t = ap (λ p. p.1) h in
      let w : (m s.identities).1 ≡ t.identities = ap (λ x. x.identities) f in
      (λ i. (e i, w i), sym f ∙ ap (λ w. record s { identities = w }) w)

  pub on_replay_ok :
      (m : Exec ReplayStore A) (s : PlatformState W) {a : A} {t : PlatformState W}
      → on_replay m s ≡ (ok a, t)
      → (m s.replay ≡ (ok a, t.replay)) × (t ≡ record s { replay = t.replay })
  on_replay_ok m s {a} {t} h =
      let e : (m s.replay).0 ≡ ok a = ap (λ p. p.0) h in
      let f : record s { replay = (m s.replay).1 } ≡ t = ap (λ p. p.1) h in
      let w : (m s.replay).1 ≡ t.replay = ap (λ x. x.replay) f in
      (λ i. (e i, w i), sym f ∙ ap (λ w. record s { replay = w }) w)
