-- ===== src/Stream/Exact.antt =====
-- What the client of streamEvents (internal/api/event.go) reads.
use jadeenvoy.Store.Log.{Numbered}
use jadeenvoy.Prelude.{
  ℕ, ◌≡◌, refl, List, [], ◌∷◌, arith, leb, map, if◌then◌else◌, select, not, Option, false, true,
  All, ◌≤◌, ap, ◌++◌, ◌<◌, suc, none, some, ◌⊎◌, Bool-cases, inl, inr,
}
use jadeenvoy.Rows.{EventRow, event_of}
use mathlib.Core.List.{map-append, append-nil}
use jadeenvoy.Stream.{is_terminal, row_of, live, stream, replay}

-- What a client should see of a log: the events beyond `since`, up to the first that ends a turn.
pub up_to_terminal : List EventRow → List EventRow
up_to_terminal [] = []
up_to_terminal (e ∷ es) =
    let rest = up_to_terminal es in if is_terminal e.type then e ∷ [] else e ∷ rest

pub beyond : ℕ → List EventRow → List EventRow
beyond since = select (λ e. not (leb e.seq since))

-- An event as both paths write it, but for processed_at and the row's creation time.
abbrev pub frame : EventRow → EventRow
frame e = row_of (event_of e)

live-beyond :
    (n : ℕ) (es : List EventRow)
    → live n (map event_of es) ≡ map frame (up_to_terminal (beyond n es))
unfolding live beyond up_to_terminal
live-beyond n [] = refl
live-beyond n (e ∷ es) = ground (arith, live-beyond n es)

-- How a replay of `history` ended: at a terminal event, or at a number that covers it.
data Ended (since reached hi : ℕ) (history written : List EventRow) : Option ℕ → Type 0 where
  closed :
      ((late : List EventRow) → up_to_terminal (beyond since (history ++ late)) ≡ written)
      → Ended since reached hi history written none
  open_at :
      {n : ℕ}
      → reached ≤ n
      → (n < hi) ⊎ (n ≡ since)
      → All (λ e. e.seq ≤ n) history
      → ((late : List EventRow)
          → up_to_terminal (beyond since (history ++ late))
            ≡ written ++ up_to_terminal (beyond since late))
      → Ended since reached hi history written (some n)

Ended-skip :
    (since reached hi : ℕ) (e : EventRow) (es written : List EventRow) (o : Option ℕ)
    → since ≤ reached
    → leb e.seq since ≡ true
    → Ended since reached hi es written o
    → Ended since reached hi (e ∷ es) written o
unfolding beyond
Ended-skip since reached hi e es written o le low (closed f) = closed (λ late. rw low (f late))
Ended-skip since reached hi e es written o le low (open_at a b c f) =
    open_at a b (ground arith, c) (λ late. rw low (f late))

Ended-write :
    (since reached hi : ℕ) (e : EventRow) (es written : List EventRow) (o : Option ℕ)
    → since ≤ reached
    → reached ≤ e.seq
    → leb e.seq since ≡ false
    → is_terminal e.type ≡ false
    → Ended since e.seq hi es written o
    → Ended since reached hi (e ∷ es) (e ∷ written) o
unfolding beyond up_to_terminal
Ended-write since reached hi e es written o le at high running (closed f) =
    closed (λ late. rw (high, running) (ap (λ (l : List EventRow). e ∷ l) (f late)))
Ended-write since reached hi e es written o le at high running (open_at a b c f) =
    open_at (omega arith) b (omega arith, c)
      (λ late. rw (high, running) (ap (λ (l : List EventRow). e ∷ l) (f late)))

replay-Ended :
    (since reached lo hi : ℕ) (es : List EventRow)
    → Numbered lo es hi
    → since ≤ reached
    → (reached < lo) ⊎ (reached ≡ since)
    → let r = replay since reached es in Ended since reached hi es r.written r.reached
unfolding replay
replay-Ended since reached lo hi [] n le at = open_at (omega arith) (ground arith) tt (λ late. refl)
replay-Ended since reached lo hi (e ∷ es) n le at = elim (Bool-cases (leb e.seq since)) [
  | inl low ↦ rw low (
      Ended-skip since reached hi e es _ _ le low
        (replay-Ended since reached (suc lo) hi es n.1 le (ground arith)))
  | inr high ↦ elim (Bool-cases (is_terminal e.type)) [
    | inl last ↦
        rw (high, last) (closed (λ late. unfold beyond up_to_terminal in rw (high, last) refl))
    | inr running ↦
        rw (high, running)
          (Ended-write since reached hi e es _ _ le (ground (arith, n.0)) high running (
            replay-Ended since e.seq (suc lo) hi es n.1 (ground arith) (inl (ground (arith, n.0)))))
  ]
]

beyond-covered :
    (n : ℕ) (es late : List EventRow)
    → All (λ e. e.seq ≤ n) es
    → beyond n (es ++ late) ≡ beyond n late
unfolding beyond
beyond-covered n [] late a = refl
beyond-covered n (e ∷ es) late a = ground (arith, a.0, beyond-covered n es late a.1)

beyond-late :
    (since n lo hi : ℕ) (es : List EventRow)
    → Numbered lo es hi
    → since ≤ n
    → (n < lo) ⊎ (n ≡ since)
    → beyond n es ≡ beyond since es
unfolding beyond
beyond-late since n lo hi [] num le at = refl
beyond-late since n lo hi (e ∷ es) num le at =
    ground (arith, num.0, beyond-late since n (suc lo) hi es num.1)

All-tail {ℓ κ} : {A : Type ℓ} (P : A → Type κ) (xs ys : List A) → All P (xs ++ ys) → All P ys
All-tail P [] ys a = a
All-tail P (x ∷ xs) ys a = All-tail P xs ys a.1

Numbered-split :
    (lo hi : ℕ) (es late : List EventRow)
    → Numbered lo (es ++ late) hi
    → (mid : ℕ) × Numbered lo es mid × Numbered mid late hi
Numbered-split lo hi [] late n = (lo, refl, n)
Numbered-split lo hi (e ∷ es) late n =
    let (mid, a, b) = Numbered-split (suc lo) hi es late n.1 in (mid, (n.0, a), b)

frame-frames : (es : List EventRow) → map frame (map frame es) ≡ map frame es
unfolding row_of
frame-frames [] = refl
frame-frames (e ∷ es) = ap (λ (l : List EventRow). frame e ∷ l) (frame-frames es)

-- A session's log is `before ++ shared ++ late`: the client subscribed after `before`, and the
-- history was read before `late`, so the channel brings `shared ++ late`. Then the stream writes
-- exactly the events with a number beyond `since`, each once and in order, up to and with the first
-- that ends a turn. (Frames are compared without processed_at.)
pub stream_exact :
    (since hi : ℕ) (before shared late : List EventRow)
    → Numbered 1 ((before ++ shared) ++ late) hi
    → map frame (stream since (before ++ shared) (map event_of (shared ++ late)))
      ≡ map frame (up_to_terminal (beyond since ((before ++ shared) ++ late)))
unfolding stream
stream_exact since hi before shared late n =
    let (mid, old, new) = Numbered-split 1 hi (before ++ shared) late n in
    finish mid new _ _
      (replay-Ended since since 1 mid (before ++ shared) old (omega arith) (inr refl))
  where
    finish :
        (mid : ℕ)
        → Numbered mid late hi
        → (written : List EventRow) (o : Option ℕ)
        → Ended since since mid (before ++ shared) written o
        → map frame
            (written ++ elim o [ none ↦ [] | some k ↦ live k (map event_of (shared ++ late)) ])
          ≡ map frame (up_to_terminal (beyond since ((before ++ shared) ++ late)))
    finish mid new written none (closed f) = rw (f late) (rw append-nil refl)
    finish mid new written (some k) (open_at a b c f) =
        rw
          (
            f late,
            live-beyond k (shared ++ late),
            beyond-covered k shared late (All-tail (λ e. e.seq ≤ k) before shared c),
            beyond-late since k mid hi late new a b,
            map-append,
          )
          (rw (map-append, frame-frames) refl)
