-- ===== src/State/SignalStore/Expiry.antt =====
-- When a signal counts and when it goes (internal/state/signal_store.go).
use statehouse.Prelude.{
  Float64, false, ◌≡◌, refl, arith, ◌≤◌, [], ◌∷◌, Str, str_eq, str_eq→eq, str_eq_refl,
  if◌then◌else◌, some, none, All,
}
use statehouse.Time.{Time, after}
use statehouse.Model.Signal.{ActivitySignal, is_expired}
use statehouse.State.SignalStore.{
  SignalStore, Signals, lookup, insert, delete, upsert, clear_at, prune, prune_from, active,
  active_from,
}

module _ ⦃fl : Float64⦄ where
  pub lookup-insert :
      (k j : Str) (s : ActivitySignal) (m : Signals)
      → lookup j (insert k s m) ≡ (if str_eq k j then some s else lookup j m)
  unfolding lookup insert
  lookup-insert k j s [] = refl
  lookup-insert k j s ((i, t) ∷ m) =
      ground
        (arith, lookup-insert k j s m, str_eq→eq i k, str_eq→eq i j, str_eq→eq k j, str_eq_refl j)

  pub lookup-delete :
      (k j : Str) (m : Signals) → lookup j (delete k m) ≡ (if str_eq k j then none else lookup j m)
  unfolding lookup delete
  lookup-delete k j [] = ground arith
  lookup-delete k j ((i, t) ∷ m) =
      ground
        (arith, lookup-delete k j m, str_eq→eq i k, str_eq→eq i j, str_eq→eq k j, str_eq_refl j)

  -- An upsert puts the signal under its id and a clear removes the id; both leave the other ids as
  -- they are.
  pub signals_by_id :
      (ss : SignalStore) (s : ActivitySignal) (id j : Str) (ts : Time)
      → (lookup j (upsert ss s).signals ≡ (if str_eq s.id j then some s else lookup j ss.signals))
        × (lookup j (clear_at ss id ts).signals
            ≡ (if str_eq id j then none else lookup j ss.signals))
  unfolding upsert clear_at
  signals_by_id ss s id j ts = (lookup-insert s.id j s ss.signals, lookup-delete id j ss.signals)

  active-prune_from :
      (now later last : Time) (m : Signals)
      → now ≤ later
      → active_from later (prune_from now m last).0 ≡ active_from later m
  unfolding active_from prune_from
  active-prune_from now later last [] h = refl
  active-prune_from now later last ((id, s) ∷ m) h =
      let gone = is_expired s now in
      ground (
        arith,
        active-prune_from now later
            (if gone then (if after s.expires_at last then s.expires_at else last) else last) m h,
      )

  -- Pruning loses no signal that counts now or at any later time.
  pub active-prune :
      (ss : SignalStore) (now later : Time)
      → now ≤ later
      → active (prune ss now) later ≡ active ss later
  unfolding active prune
  active-prune ss now later h = active-prune_from now later ss.last_at ss.signals h

  unexpired-prune_from :
      (now last : Time) (m : Signals)
      → All (λ e. is_expired (e.1) now ≡ false) (prune_from now m last).0
  unfolding prune_from
  unexpired-prune_from now last [] = tt
  unexpired-prune_from now last ((id, s) ∷ m) =
      let gone = is_expired s now in
      ground (
        arith,
        unexpired-prune_from now
            (if gone then (if after s.expires_at last then s.expires_at else last) else last) m,
      )

  -- And it leaves no signal that has expired.
  pub unexpired-prune :
      (ss : SignalStore) (now : Time)
      → All (λ e. is_expired (e.1) now ≡ false) (prune ss now).signals
  unfolding prune
  unexpired-prune ss now = unexpired-prune_from now ss.last_at ss.signals
