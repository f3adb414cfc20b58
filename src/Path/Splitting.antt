-- ===== src/Path/Splitting.antt =====
-- What `split` makes of texts, and which segments `push_split` takes.
use rust_ipfs.Base.{
  true, false, ◌≡◌, refl, ap, ◌∙◌, inl, inr, List, [], ◌∷◌, ◌++◌, arith, All, is_empty, nat_eq,
  list_eq, Bool-cases,
}
use rust_ipfs.Base.Set
use mathlib.Core.List.{append_assoc, append-nil}
use rust_ipfs.Path.{Text, IsSegment, split_slash, push_split, display_more}

pub split_slash_segment : (s : Text) → Set.contains s b'/' ≡ false → split_slash s ≡ (s, [])
unfolding split_slash Set.contains
split_slash_segment [] h = refl
split_slash_segment (c ∷ s) h = ground (arith, split_slash_segment s)

-- A text without a slash, a slash and more.
pub split_slash-append :
    (s t : Text)
    → Set.contains s b'/' ≡ false
    → split_slash (s ++ b'/' ∷ t) ≡ (s, (split_slash t).0 ∷ (split_slash t).1)
unfolding split_slash Set.contains
split_slash-append [] t h = refl
split_slash-append (c ∷ s) t h = ground (arith, split_slash-append s t)

-- What is printed splits into what was printed.
pub split_slash-display_more :
    (s : Text) (path : List Text)
    → Set.contains s b'/' ≡ false
    → All IsSegment path
    → split_slash (s ++ display_more path) ≡ (s, path)
unfolding display_more
split_slash-display_more s [] h k = rw append-nil (split_slash_segment s h)
split_slash-display_more s (t ∷ path) h k =
    let next : split_slash (t ++ display_more path) ≡ (t, path) =
      split_slash-display_more t path k.0.1 k.1 in
    rw (split_slash-append s (t ++ display_more path) h, next) refl

pub push_split_segments :
    (path split : List Text) → All IsSegment split → push_split path split ≡ (path ++ split, true)
unfolding push_split
push_split_segments path [] h = rw append-nil refl
push_split_segments path (s ∷ split) h = rw (h.0.0) (
    push_split_segments (path ++ s ∷ []) split h.1
    ∙ ap (λ p. (p, true)) (append_assoc path (s ∷ []) split))

-- One empty piece at the end is dropped.
pub push_split_trailing :
    (path split : List Text)
    → All IsSegment split
    → push_split path (split ++ [] ∷ []) ≡ (path ++ split, true)
unfolding push_split
push_split_trailing path [] h = rw append-nil refl
push_split_trailing path (s ∷ split) h = rw (h.0.0) (
    push_split_trailing (path ++ s ∷ []) split h.1
    ∙ ap (λ p. (p, true)) (append_assoc path (s ∷ []) split))

-- No piece of a split holds a slash.
pub split_slash_clean :
    (s : Text)
    → (Set.contains (split_slash s).0 b'/' ≡ false)
      × All (λ piece. Set.contains piece b'/' ≡ false) (split_slash s).1
unfolding split_slash Set.contains
split_slash_clean [] = (refl, tt)
split_slash_clean (c ∷ s) = ground (arith, split_slash_clean s)

pub All-append {ℓ κ} :
    {A : Type ℓ} (P : A → Type κ) (xs ys : List A) → All P xs → All P ys → All P (xs ++ ys)
All-append P [] ys h k = k
All-append P (x ∷ xs) ys h k = (h.0, All-append P xs ys h.1 k)

-- What is pushed are segments.
pub push_split-IsSegment :
    (path split : List Text)
    → All IsSegment path
    → All (λ piece. Set.contains piece b'/' ≡ false) split
    → All IsSegment (push_split path split).0
unfolding push_split
push_split-IsSegment path [] h k = h
push_split-IsSegment path (s ∷ split) h k = elim (Bool-cases (is_empty s)) [
  | inl gone ↦ rw gone h
  | inr there ↦ rw there (
      push_split-IsSegment (path ++ s ∷ []) split
        (All-append IsSegment path (s ∷ []) h ((there, k.0), tt)) k.1)
]
