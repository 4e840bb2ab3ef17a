-- ===== src/State/SignalStore.antt =====
-- The store of active signals (internal/state/signal_store.go). The map is an association list in
-- the order of a visit, with one entry for each id; a method holds the mutex throughout.
pub mod Expiry
pub mod HighWater
use statehouse.Prelude.{
  Float64, Bool, true, false, not, List, [], ◌∷◌, Str, str_eq, if◌then◌else◌, Option, some, none,
}
use statehouse.Time.{Time, after}
use statehouse.Model.Signal.{ActivitySignal, is_expired}

module _ ⦃fl : Float64⦄ where
  abbrev pub Signals : Type 0
  Signals = List (Str × ActivitySignal)

  pub record SignalStore : Type 0 where
    pub signals : Signals
    pub last_at : Time

  pub new_signal_store : SignalStore
  new_signal_store = record { signals = []; last_at = 0 }

  unfoldable pub lookup : Str → Signals → Option ActivitySignal
  lookup k [] = none
  lookup k ((j, s) ∷ m) = if str_eq j k then some s else lookup k m

  unfoldable pub insert : Str → ActivitySignal → Signals → Signals
  insert k s [] = (k, s) ∷ []
  insert k s ((j, t) ∷ m) = if str_eq j k then (k, s) ∷ m else (j, t) ∷ insert k s m

  unfoldable pub delete : Str → Signals → Signals
  delete k [] = []
  delete k ((j, t) ∷ m) = let rest = delete k m in if str_eq j k then rest else (j, t) ∷ rest

  abbrev pub advance : Time → Time → Time
  advance t last = if after t last then t else last

  unfoldable pub upsert : SignalStore → ActivitySignal → SignalStore
  upsert ss s = record { signals = insert s.id s ss.signals; last_at = advance s.since ss.last_at }

  unfoldable pub clear_at : SignalStore → Str → Time → SignalStore
  clear_at ss id ts = record { signals = delete id ss.signals; last_at = advance ts ss.last_at }

  -- The loop of `Prune`: the entries that stay, and the mark.
  unfoldable pub prune_from : Time → Signals → Time → Signals × Time
  prune_from now [] last = ([], last)
  prune_from now ((id, s) ∷ m) last =
      let gone = is_expired s now in
      let (kept, mark) = prune_from now m (if gone then advance s.expires_at last else last) in
      (if gone then kept else (id, s) ∷ kept, mark)

  unfoldable pub prune : SignalStore → Time → SignalStore
  unfolding prune_from
  prune ss now =
      let (kept, mark) = prune_from now ss.signals ss.last_at in
      record { signals = kept; last_at = mark }

  active_from : Time → Signals → List ActivitySignal
  active_from now [] = []
  active_from now ((id, s) ∷ m) =
      let rest = active_from now m in if not (is_expired s now) then s ∷ rest else rest

  unfoldable pub active : SignalStore → Time → List ActivitySignal
  unfolding active_from
  active ss now = active_from now ss.signals
