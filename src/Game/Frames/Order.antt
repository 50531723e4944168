-- ===== src/Game/Frames/Order.antt =====
-- The frames of zeos/user.c as a queue, and what draws on it.
use mathlib.Core.List.{map, map-append}
use soa_subject.Prelude.{
  ℕ, suc, ◌≡◌, ◌≢◌, refl, sym, ap, ap₂, ◌∙◌, subst, true, false, ◌==◌, if◌then◌else◌, update, List,
  [], ◌∷◌, ◌++◌, arith, Bool-cases, inl, inr, length, All, All-append, All_mono, NotIn, Distinct,
  Distinct-snoc, update_ne, update_self,
}
use soa_subject.Ring.{push_frame, frame_slots}
use soa_subject.Ring.Queue.{IsValid, contents, enqueue, write-enqueue, write-IsValid}
use soa_subject.Game.Screen.{Matrix, Meter}
use soa_subject.Game.Frames.{Frames, push_page}

-- The frames that wait, oldest first.
abbrev pub waiting : Frames → List Matrix
waiting p = map p.pages (contents frame_slots p.frames)

-- The buffer is well formed and holds pages that `alloc` has given, each once.
pub record IsSound (p : Frames) : Type 0 where
  pub ring : IsValid frame_slots p.frames
  pub held : All (λ a. (p.taken a ≡ true) × (a ≢ 0)) (contents frame_slots p.frames)
  pub distinct : Distinct (contents frame_slots p.frames)

length-map : (f : ℕ → Matrix) (xs : List ℕ) → length (map f xs) ≡ length xs
length-map f [] = refl
length-map f (x ∷ xs) = ap suc (length-map f xs)

-- A page that is not in the list is written.
map-update :
    (f : ℕ → Matrix) (a : ℕ) (m : Matrix) (xs : List ℕ)
    → NotIn a xs
    → map (update f a m) xs ≡ map f xs
map-update f a m [] h = refl
map-update f a m (x ∷ xs) h =
    ap₂ ◌∷◌ (update_ne f a m x (λ e. h.0 (sym e))) (map-update f a m xs h.1)

-- What the two threads promise: the frames that wait, at most 64 and oldest first, and those that
-- were shown.
pub record Show : Type 0 where
  pub queue : List Matrix
  pub screen : List Matrix

pub put_last : Matrix → Show → Show
put_last m s = record s { queue = if length s.queue == 64 then s.queue else s.queue ++ (m ∷ []) }

unfoldable pub show_first : List Matrix → List Matrix → Show
show_first [] screen = record { queue = []; screen = screen }
show_first (m ∷ q) screen = record { queue = q; screen = screen ++ (m ∷ []) }

abbrev pub view : Frames → Show
view p = record { queue = waiting p; screen = p.shown }

not_held :
    (p : Frames) (mat : ℕ)
    → p.taken mat ≡ false
    → (xs : List ℕ) → All (λ a. (p.taken a ≡ true) × (a ≢ 0)) xs
    → NotIn mat xs
not_held p mat free xs h = All_mono xs (λ a k e. no (sym k.0 ∙ ap p.taken e ∙ free)) h
  where
    no : true ≢ false
    no e = cc

module _ (p : Frames) (s : IsSound p) (mat : ℕ) (m : Matrix) (meter : Meter)
    (fresh : p.taken mat ≡ false) (good : mat ≢ 0) where
  abbrev held_pages : List ℕ
  held_pages = contents frame_slots p.frames

  pushed_contents :
      contents frame_slots (push_page mat m meter p).frames
      ≡ (if length held_pages == 64 then held_pages else held_pages ++ (mat ∷ []))
  unfolding push_page push_frame enqueue
  pushed_contents = write-enqueue frame_slots s.ring mat

  mat_new : NotIn mat held_pages
  mat_new = not_held p mat fresh held_pages s.held

  kept_taken : All (λ a. ((push_page mat m meter p).taken a ≡ true) × (a ≢ 0)) held_pages
  unfolding push_page
  kept_taken = All_mono held_pages (λ a k. (ground (arith, k.0), k.1)) s.held

  pushed_waiting :
      waiting (push_page mat m meter p)
      ≡ (if length (waiting p) == 64 then waiting p else waiting p ++ (m ∷ []))
  unfolding push_page
  pushed_waiting =
      let f = update p.pages mat m in
      let old = map-update p.pages mat m held_pages mat_new in
      let count = length-map p.pages held_pages in
      ap (map f) pushed_contents ∙ elim (Bool-cases (length held_pages == 64)) [
        | inl e ↦ rw (count, e) old
        | inr e ↦
            rw (count, e)
              (map-append f held_pages (mat ∷ [])
                ∙ ap₂ (λ l n. l ++ (n ∷ [])) old (update_self p.pages mat m))
      ]

  pub push_page-put_last : view (push_page mat m meter p) ≡ put_last m (view p)
  unfolding put_last push_page
  push_page-put_last =
      ap (λ (q : List Matrix). let v : Show = record { queue = q; screen = p.shown } in v)
        pushed_waiting

  -- What holds of the pages with and without the new one holds of the pages behind.
  pushed_elim :
      (P : List ℕ → Type 0)
      → P held_pages
      → P (held_pages ++ (mat ∷ []))
      → P (contents frame_slots (push_page mat m meter p).frames)
  pushed_elim P full more =
      subst P (sym pushed_contents)
        (elim (Bool-cases (length held_pages == 64)) [ inl e ↦ rw e full | inr e ↦ rw e more ])

  pub push_page-IsSound : IsSound (push_page mat m meter p)
  unfolding push_page push_frame
  push_page-IsSound = record {
    ring = write-IsValid frame_slots s.ring mat;
    held = pushed_elim (All (λ a. (update p.taken mat true a ≡ true) × (a ≢ 0))) kept_taken (
        All-append (λ a. (update p.taken mat true a ≡ true) × (a ≢ 0)) held_pages (mat ∷ [])
          kept_taken ((update_self p.taken mat true, good), tt));
    distinct = pushed_elim Distinct s.distinct (Distinct-snoc held_pages mat s.distinct mat_new);
  }
