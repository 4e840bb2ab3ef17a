-- ===== src/State/SignalStore/HighWater.antt =====
-- The high-water mark of signal activity (internal/state/signal_store.go).
use statehouse.Prelude.{Float64, ◌≡◌, refl, ap, ◌∙◌, arith, ◌≤◌, List, [], ◌∷◌, Str, if◌then◌else◌}
use mathlib.Core.List.{Permᴰ}
use statehouse.Time.{Time}
use statehouse.Model.Signal.{ActivitySignal, is_expired}
use statehouse.State.SignalStore.{
  SignalStore, Signals, advance, upsert, clear_at, prune, prune_from,
}

module _ ⦃fl : Float64⦄ where
  -- What a caller may do to the store.
  pub data Call : Type 0 where
    upserts : ActivitySignal → Call
    clears : Str → Time → Call
    prunes : Time → Call

  abbrev pub apply : SignalStore → Call → SignalStore
  apply ss (upserts s) = upsert ss s
  apply ss (clears id ts) = clear_at ss id ts
  apply ss (prunes now) = prune ss now

  -- The calls in order.
  abbrev pub apply_all : SignalStore → List Call → SignalStore
  apply_all ss [] = ss
  apply_all ss (c ∷ cs) = apply_all (apply ss c) cs

  -- The times that a call makes known to the mark.
  abbrev pub Marks : SignalStore → Call → Time → Type 0
  Marks ss (upserts s) t = t ≡ s.since
  Marks ss (clears id ts) t = t ≡ ts
  Marks ss (prunes now) t = ⊥

  prune_from-le : (now last : Time) (m : Signals) → last ≤ (prune_from now m last).1
  unfolding prune_from
  prune_from-le now last [] = omega arith
  prune_from-le now last ((id, s) ∷ m) =
      let gone = is_expired s now in
      let next = if gone then advance s.expires_at last else last in
      ground (arith, prune_from-le now next m)

  apply-le : (ss : SignalStore) (c : Call) → ss.last_at ≤ (apply ss c).last_at
  unfolding upsert clear_at prune
  apply-le ss (upserts s) = ground arith
  apply-le ss (clears id ts) = ground arith
  apply-le ss (prunes now) = prune_from-le now ss.last_at ss.signals

  -- No sequence of calls takes the mark back.
  pub last_at-apply_all :
      (ss : SignalStore) (cs : List Call) → ss.last_at ≤ (apply_all ss cs).last_at
  last_at-apply_all ss [] = omega arith
  last_at-apply_all ss (c ∷ cs) = omega (arith, apply-le ss c, last_at-apply_all (apply ss c) cs)

  -- The mark is no earlier than the start of any signal ever asserted, nor than the time of any
  -- clear, whatever upserts, clears and prunes follow.
  pub last_at-covers :
      (ss : SignalStore) (c : Call) (t : Time) (cs : List Call)
      → Marks ss c t
      → t ≤ (apply_all (apply ss c) cs).last_at
  unfolding upsert clear_at
  last_at-covers ss (upserts s) t cs e = ground (arith, last_at-apply_all (upsert ss s) cs)
  last_at-covers ss (clears id ts) t cs e = ground (arith, last_at-apply_all (clear_at ss id ts) cs)
  last_at-covers ss (prunes now) t cs e = absurd e

  abbrev marked : Time → Time → Str × ActivitySignal → Time
  marked now last x = if is_expired (x.1) now then advance (x.1.expires_at) last else last

  marked-swap :
      (now last : Time) (x y : Str × ActivitySignal)
      → marked now (marked now last x) y ≡ marked now (marked now last y) x
  marked-swap now last x y = ground arith

  last_at-prune_from :
      (now last : Time) (a b : Signals)
      → Permᴰ a b
      → (prune_from now a last).1 ≡ (prune_from now b last).1
  unfolding prune_from
  last_at-prune_from now last a b Permᴰ.nil = refl
  last_at-prune_from now last a b (Permᴰ.cons {a = x} {l₁ = l} {l₂ = m} e p) =
      rw (← e) (last_at-prune_from now (marked now last x) l m p)
  last_at-prune_from now last a b (Permᴰ.swap {a = x} {b = y} {l = l} e f) =
      rw (← e, ← f) (ap (λ t. (prune_from now l t).1) (marked-swap now last x y))
  last_at-prune_from now last a b (Permᴰ.trans {l₂ = m} p q) =
      last_at-prune_from now last a m p ∙ last_at-prune_from now last m b q

  -- In whatever order Go visits the map, pruning leaves the same mark.
  pub last_at-prune-Perm :
      (ss other : SignalStore) (now : Time)
      → Permᴰ ss.signals other.signals
      → ss.last_at ≡ other.last_at
      → (prune ss now).last_at ≡ (prune other now).last_at
  unfolding prune
  last_at-prune-Perm ss other now p e =
      last_at-prune_from now ss.last_at ss.signals other.signals p
      ∙ ap (λ t. (prune_from now other.signals t).1) e
