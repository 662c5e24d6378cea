-- ===== src/Proxy/BufferBudget/Delivery.antt =====
-- What one call of `collectBounded` of src/proxy/buffer-budget.ts delivers.
use dg_cli.Common.{
  ℕ, ◌+◌, ◌≤◌, ◌≡◌, ◌∙◌, ap, ap₂, sym, refl, String, ◌⊎◌, inl, inr, Bool-cases, ltb, true, false,
  List, [], ◌∷◌, ◌++◌, arith, length, length-append,
}
use mathlib.Core.List.{append-nil, append_assoc}
use dg_cli.Proxy.BufferBudget.{
  resolved, rejected, Failure, over_limit, over_total, stream_error, closed_early, Stream, settled,
  concat, Event, data_event, end_event, close_event, error_event, on_event,
}

-- The events of one stream, each with the total that the other streams leave when it arrives.
unfoldable pub feed : List (ℕ × Event) → Stream → Stream
feed [] s = s
feed ((total, event) ∷ events) s = feed events (on_event event total s).1

-- The chunks that arrive before anything else happens to the stream.
abbrev pub data_of : List (ℕ × Event) → List (List ℕ)
data_of [] = []
data_of ((total, data_event chunk) ∷ events) = chunk ∷ data_of events
data_of (_ ∷ events) = []

concat-append : (xs ys : List (List ℕ)) → concat (xs ++ ys) ≡ concat xs ++ concat ys
concat-append [] ys = refl
concat-append (x ∷ xs) ys = simp (concat-append xs ys, append_assoc)

-- A stream that has settled takes no further part.
on_event-settled :
    (event : Event) (total : ℕ) (s : Stream)
    → settled s.outcome ≡ true
    → (on_event event total s).1.outcome ≡ s.outcome
unfolding on_event
on_event-settled (data_event chunk) total s h = ground arith
on_event-settled end_event total s h = ground arith
on_event-settled (error_event m) total s h = ground arith
on_event-settled close_event total s h = ground arith

feed-settled :
    (events : List (ℕ × Event)) (s : Stream)
    → settled s.outcome ≡ true
    → (feed events s).outcome ≡ s.outcome
unfolding feed
feed-settled [] s h = refl
feed-settled ((total, event) ∷ events) s h =
    let e = on_event-settled event total s h in
    feed-settled events (on_event event total s).1 (rw e h) ∙ e

-- Chunks and size agree, within the limit.
record IsBounded (s : Stream) : Type 0 where
  counted : length (concat s.chunks) ≡ s.size
  bounded : s.size ≤ s.limit

abbrev with_chunk : List ℕ → Stream → Stream
with_chunk chunk s = record s { size = s.size + length chunk; chunks = s.chunks ++ chunk ∷ [] }

on_data_cases :
    (chunk : List ℕ) (total : ℕ) (s : Stream)
    → settled s.outcome ≡ false
    → (((on_event (data_event chunk) total s).1 ≡ with_chunk chunk s)
        × (s.size + length chunk ≤ s.limit))
      ⊎ ((f : Failure) × ((on_event (data_event chunk) total s).1.outcome ≡ rejected f))
unfolding on_event
on_data_cases chunk total s h = elim (Bool-cases (ltb s.limit (s.size + length chunk))) [
  | inl e ↦ inr (over_limit, ground arith)
  | inr e ↦ elim (Bool-cases (ltb s.total_limit (total + length chunk))) [
    | inl f ↦ inr (over_total, ground arith)
    | inr f ↦ inl (ground arith, ground arith)
  ]
]

with_chunk-IsBounded :
    (chunk : List ℕ) (s : Stream)
    → IsBounded s
    → s.size + length chunk ≤ s.limit
    → IsBounded (with_chunk chunk s)
with_chunk-IsBounded chunk s b h = record {
  counted =
      ap length (concat-append s.chunks (chunk ∷ []))
      ∙ (length-append (concat s.chunks) (chunk ++ [])
          ∙ ap₂ ◌+◌ b.counted (ap length (append-nil chunk)));
  bounded = h;
}

-- The outcome is the one of `s` if that has settled; a rejection is no resolution.
not_resolved :
    (events : List (ℕ × Event)) (s : Stream) {f : Failure} {bytes : List ℕ}
    → s.outcome ≡ rejected f
    → (feed events s).outcome ≡ resolved bytes
    → ⊥
not_resolved events s e h = ground (arith, feed-settled events s)

settles :
    (total : ℕ) (s : Stream)
    → settled s.outcome ≡ false
    → ((on_event end_event total s).1.outcome ≡ resolved (concat s.chunks))
      × ((on_event close_event total s).1.outcome ≡ rejected closed_early)
unfolding on_event
settles total s p = ground arith

errs :
    (message : String) (total : ℕ) (s : Stream)
    → settled s.outcome ≡ false
    → (on_event (error_event message) total s).1.outcome ≡ rejected (stream_error message)
unfolding on_event
errs message total s p = ground arith

ended :
    (events : List (ℕ × Event)) (total : ℕ) (s : Stream)
    → settled s.outcome ≡ false
    → (feed events (on_event end_event total s).1).outcome ≡ resolved (concat s.chunks)
ended events total s p =
    let e = (settles total s p).0 in
    feed-settled events (on_event end_event total s).1 (rw e refl) ∙ e

-- A pending stream that resolves gives exactly the chunks that arrived before its end, in their
-- order, and no more bytes than its limit.
pub feed-resolved :
    (events : List (ℕ × Event)) (s : Stream) (bytes : List ℕ)
    → length (concat s.chunks) ≡ s.size
    → s.size ≤ s.limit
    → settled s.outcome ≡ false
    → (feed events s).outcome ≡ resolved bytes
    → (bytes ≡ concat (s.chunks ++ data_of events)) × (length bytes ≤ s.limit)
unfolding feed
feed-resolved [] s bytes c b p h = absurd (ground arith)
feed-resolved ((total, data_event chunk) ∷ events) s bytes c b p h =
    elim (on_data_cases chunk total s p) [
      | inl (e, fits) ↦
          let b' = with_chunk-IsBounded chunk s (record { counted = c; bounded = b }) fits in
          let later =
            feed-resolved events (with_chunk chunk s) bytes b'.counted b'.bounded p
              (sym (ap (λ (t : Stream). (feed events t).outcome) e) ∙ h) in
          (later.0 ∙ ap concat (append_assoc s.chunks (chunk ∷ []) (data_of events)), later.1)
      | inr (f, e) ↦ absurd (not_resolved events (on_event (data_event chunk) total s).1 e h)
    ]
feed-resolved ((total, end_event) ∷ events) s bytes c b p h =
    let same : bytes ≡ concat s.chunks = cc (ended events total s p) in
    (same ∙ ap concat (sym (append-nil s.chunks)), rw same (omega arith))
feed-resolved ((total, error_event m) ∷ events) s bytes c b p h =
    absurd (not_resolved events (on_event (error_event m) total s).1 (errs m total s p) h)
feed-resolved ((total, close_event) ∷ events) s bytes c b p h =
    absurd (not_resolved events (on_event close_event total s).1 (settles total s p).1 h)

-- Chunks that fit both limits, and then the end.
abbrev pub Fits : ℕ → ℕ → ℕ → List (ℕ × Event) → Type 0
Fits limit total_limit size [] = ⊥
Fits limit total_limit size ((total, data_event chunk) ∷ events) =
    (size + length chunk ≤ limit)
    × (total + length chunk ≤ total_limit)
    × Fits limit total_limit (size + length chunk) events
Fits limit total_limit size ((total, end_event) ∷ events) = Unit
Fits limit total_limit size (_ ∷ events) = ⊥

accepts :
    (chunk : List ℕ) (total : ℕ) (s : Stream)
    → settled s.outcome ≡ false
    → s.size + length chunk ≤ s.limit
    → total + length chunk ≤ s.total_limit
    → (on_event (data_event chunk) total s).1 ≡ with_chunk chunk s
unfolding on_event
accepts chunk total s p h k = ground arith

-- A pending stream whose chunks fit its limit and the total, and which then ends, resolves with all
-- of its chunks, whatever comes later.
pub feed_delivers :
    (events : List (ℕ × Event)) (s : Stream)
    → settled s.outcome ≡ false
    → Fits s.limit s.total_limit s.size events
    → (feed events s).outcome ≡ resolved (concat (s.chunks ++ data_of events))
unfolding feed
feed_delivers [] s p h = absurd h
feed_delivers ((total, data_event chunk) ∷ events) s p (h, k, later) =
    ap (λ (t : Stream). (feed events t).outcome) (accepts chunk total s p h k)
    ∙ (feed_delivers events (with_chunk chunk s) p later
        ∙ ap (λ (cs : List (List ℕ)). resolved (concat cs))
            (append_assoc s.chunks (chunk ∷ []) (data_of events)))
feed_delivers ((total, end_event) ∷ events) s p h =
    ended events total s p
    ∙ ap (λ (cs : List (List ℕ)). resolved (concat cs)) (sym (append-nil s.chunks))
feed_delivers ((total, error_event m) ∷ events) s p h = absurd h
feed_delivers ((total, close_event) ∷ events) s p h = absurd h
