-- ===== src/Cache/Timeline.antt =====
-- The cache of core/cache/cache.go over a sequence of calls, against a reading of the history of
-- calls that never removes anything.
use kumacore.Prelude.{
  ℕ, ◌+◌, ◌≤◌, ℤ, is_positive, pos_part, Option, none, some, List, [], ◌∷◌, Eq, ltb, ◌≡◌, refl,
  if◌then◌else◌, ◌&&◌, ◌==◌, arith, ap, ap₂, sym, ◌∙◌,
}
use kumacore.Cache.{Cache, get, get_read, get_evict, set, remove, purge, new_cache}
use kumacore.Cache.View.{
  view, get-view, view-get, view-set, view-remove, view-purge, view-new_cache,
}

pub data Call (K V : Type 0) : Type 0 where
  getting : K → Call K V
  setting : K → V → Call K V
  removing : K → Call K V
  purging : Call K V

-- Calls with the times at which they are made.
abbrev pub Calls : Type 0 → Type 0 → Type 0
Calls K V = List (ℕ × Call K V)

abbrev pub IsTimed : {K V : Type 0} → ℕ → Calls K V → Type 0
IsTimed now [] = Unit
IsTimed now ((t, call) ∷ calls) = (now ≤ t) × IsTimed t calls

module _ {K V : Type 0} ⦃e : Eq K⦄ where
  unfoldable pub perform : ℕ → Call K V → Cache K V → Cache K V × Option V
  perform now (getting key) cache = get now key cache
  perform now (setting key value) cache = (set now key value cache, none)
  perform now (removing key) cache = (remove key cache, none)
  perform now purging cache = (purge cache, none)

  -- What the calls return, one after the other.
  unfoldable pub replies : Cache K V → Calls K V → List (Option V)
  unfolding perform
  replies cache [] = []
  replies cache ((t, call) ∷ calls) =
      let (cache', reply) = perform t call cache in reply ∷ replies cache' calls

  -- The specification: the last write to the key decides, and nothing is ever evicted. The history
  -- has the latest call first.
  abbrev pub recall : ℤ → ℕ → K → Calls K V → Option V
  recall ttl now key [] = none
  recall ttl now key ((t, getting j) ∷ calls) = recall ttl now key calls
  recall ttl now key ((t, setting j value) ∷ calls) =
      if j == key
      then (if is_positive ttl && ltb (t + pos_part ttl) now then none else some value)
      else recall ttl now key calls
  recall ttl now key ((t, removing j) ∷ calls) = if j == key then none else recall ttl now key calls
  recall ttl now key ((t, purging) ∷ calls) = none

  abbrev pub expected : ℤ → ℕ → Call K V → Calls K V → Option V
  expected ttl now (getting key) history = recall ttl now key history
  expected ttl now _ history = none

  abbrev pub expected_replies : ℤ → Calls K V → Calls K V → List (Option V)
  expected_replies ttl history [] = []
  expected_replies ttl history ((t, call) ∷ calls) =
      expected ttl t call history ∷ expected_replies ttl ((t, call) ∷ history) calls

  -- The cache and the history agree on what can be read from `now` on.
  record Agrees (cache : Cache K V) (now : ℕ) (history : Calls K V) : Type 0 where
    same :
        (later : ℕ) (key : K)
        → now ≤ later
        → view cache later key ≡ recall cache.ttl later key history

  pub ttl-perform :
      (now : ℕ) (call : Call K V) (cache : Cache K V) → (perform now call cache).0.ttl ≡ cache.ttl
  unfolding perform get get_read get_evict set remove purge
  ttl-perform now call cache = ground arith

  reply-perform :
      (now : ℕ) (call : Call K V) (cache : Cache K V) (history : Calls K V)
      → Agrees cache now history
      → (perform now call cache).1 ≡ expected cache.ttl now call history
  unfolding perform
  reply-perform now (getting key) cache history a =
      get-view now key cache ∙ a.same now key (omega arith)
  reply-perform now _ cache history a = refl

  Agrees-perform :
      (now : ℕ) (call : Call K V) (cache : Cache K V) (history : Calls K V)
      → Agrees cache now history
      → Agrees (perform now call cache).0 now ((now, call) ∷ history)
  unfolding perform set remove purge
  Agrees-perform now (getting key) cache history a = record {
    same = λ later j h.
        view-get now later key j cache h
        ∙ a.same later j h
        ∙ ap (λ ttl. recall ttl later j history) (sym (ttl-perform now (getting key) cache));
  }
  Agrees-perform now (setting key value) cache history a = record {
    same = λ later j h.
        ground (arith, view-set now later key j value cache, a.same later j h, e.beq_iff key j);
  }
  Agrees-perform now (removing key) cache history a = record {
    same = λ later j h.
        ground (arith, view-remove later key j cache, a.same later j h, e.beq_iff key j);
  }
  Agrees-perform now purging cache history a = record {
    same = λ later j h. view-purge later j cache;
  }

  Agrees-later :
      (cache : Cache K V) (now later : ℕ) (history : Calls K V)
      → now ≤ later
      → Agrees cache now history
      → Agrees cache later history
  Agrees-later cache now later history h a = record { same = λ t key p. a.same t key (omega arith) }

  replies-expected :
      (cache : Cache K V) (now : ℕ) (history calls : Calls K V)
      → IsTimed now calls
      → Agrees cache now history
      → replies cache calls ≡ expected_replies cache.ttl history calls
  unfolding replies
  replies-expected cache now history [] timed a = refl
  replies-expected cache now history ((t, call) ∷ calls) (le, timed) a =
      let a' = Agrees-later cache now t history le a in
      ap₂ ◌∷◌ (reply-perform t call cache history a') (
        replies-expected (perform t call cache).0 t ((t, call) ∷ history) calls timed
          (Agrees-perform t call cache history a')
        ∙ ap (λ ttl. expected_replies ttl ((t, call) ∷ history) calls) (ttl-perform t call cache))

  -- A new cache answers every sequence of calls made at times that do not fall as the history of
  -- those calls says, whatever its time to live: a read returns the value last written to its key
  -- since the last removal or purge, unless more than a positive time to live has passed since that
  -- write. So removing expired entries on reads is never noticed.
  pub replies-new_cache :
      (ttl : ℤ) (now : ℕ) (calls : Calls K V)
      → IsTimed now calls
      → replies (new_cache ttl) calls ≡ expected_replies ttl [] calls
  unfolding new_cache
  replies-new_cache ttl now calls timed =
      replies-expected (new_cache ttl) now [] calls timed
        (record { same = λ later key h. view-new_cache ttl later key })
