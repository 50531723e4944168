-- ===== src/Game/Frames/Dump.antt =====
-- A round of `thread_dump` of zeos/user.c on the queue of frames.
use mathlib.Core.List.{map}
use soa_subject.Prelude.{
  ℕ, ◌≡◌, ◌≢◌, refl, sym, ap, ◌∙◌, subst, true, false, update, Option, none, some, List, [], ◌∷◌,
  ◌++◌, All, NotIn, Distinct, add32, ==_of_ne, update_ne,
}
use soa_subject.Ring.{Ring, read, read_frame, frame_slots}
use soa_subject.Ring.Queue.{IsValid, contents, dequeue, read-dequeue, read-IsValid}
use soa_subject.Game.Frames.{Frames, thread_dump}
use soa_subject.Game.Frames.Order.{IsSound, Show, waiting, view, show_first}

module _ (p : Frames) (s : IsSound p) where
  abbrev old_pages : List ℕ
  old_pages = contents frame_slots p.frames

  dump_step :
      (out : Option ℕ) (r : Ring)
      → read frame_slots p.frames ≡ (out, r)
      → (out, contents frame_slots r) ≡ dequeue old_pages
  dump_step out r e =
      ap (λ (o : Option ℕ × Ring). (o.0, contents frame_slots o.1)) (sym e)
      ∙ read-dequeue frame_slots s.ring

  rest_ring :
      (out : Option ℕ) (r : Ring) → read frame_slots p.frames ≡ (out, r) → IsValid frame_slots r
  rest_ring out r e =
      subst (λ (o : Option ℕ × Ring). IsValid frame_slots o.1) e (read-IsValid frame_slots s.ring)

  dump_none :
      (r : Ring) → read frame_slots p.frames ≡ (none, r) → thread_dump p ≡ record p { frames = r }
  unfolding thread_dump read_frame
  dump_none r e = rw e refl

  after : (mat : ℕ) (r : Ring) → Frames
  after mat r = record p {
    frames = r;
    shown = p.shown ++ (p.pages mat ∷ []);
    meter = record p.meter { total_frames = add32 p.meter.total_frames 1 };
    taken = update p.taken mat false;
  }

  dump_some :
      (mat : ℕ) (r : Ring)
      → read frame_slots p.frames ≡ (some mat, r)
      → mat ≢ 0
      → thread_dump p ≡ after mat r
  unfolding thread_dump read_frame after
  dump_some mat r e ne = rw (e, ==_of_ne mat 0 ne) refl

  -- The other pages stay given.
  still_held :
      (mat : ℕ) (q : List ℕ)
      → NotIn mat q
      → All (λ a. (p.taken a ≡ true) × (a ≢ 0)) q
      → All (λ a. (update p.taken mat false a ≡ true) × (a ≢ 0)) q
  still_held mat [] n h = tt
  still_held mat (a ∷ q) n h =
      ((update_ne p.taken mat false a (λ e. n.0 (sym e)) ∙ h.0.0, h.0.1), still_held mat q n.1 h.1)

  abbrev Dumped : List ℕ → Frames → Type 0
  Dumped q p' = (view p' ≡ show_first (map p.pages q) p.shown) × IsSound p'

  after-Dumped :
      (mat : ℕ) (r : Ring) (q : List ℕ)
      → IsValid frame_slots r
      → contents frame_slots r ≡ q
      → old_pages ≡ mat ∷ q
      → Dumped (mat ∷ q) (after mat r)
  unfolding after show_first
  after-Dumped mat r q v e f =
      let h = subst (All (λ a. (p.taken a ≡ true) × (a ≢ 0))) f s.held in
      let d = subst Distinct f s.distinct in
      (
        ap
            (λ (l : List ℕ).
              let w : Show = record {
                queue = map p.pages l;
                screen = p.shown ++ (p.pages mat ∷ []);
              } in
              w)
            e,
        record {
          ring = v;
          held =
              subst (All (λ a. (update p.taken mat false a ≡ true) × (a ≢ 0))) (sym e)
                (still_held mat q d.0 h.1);
          distinct = subst Distinct (sym e) d.1;
        },
      )

  dumped :
      (out : Option ℕ) (r : Ring) (q : List ℕ)
      → read frame_slots p.frames ≡ (out, r)
      → old_pages ≡ q
      → (out, contents frame_slots r) ≡ dequeue q
      → Dumped q (thread_dump p)
  unfolding show_first dequeue
  dumped none r [] e f g =
      let none_left : contents frame_slots r ≡ [] = ap (λ (o : Option ℕ × List ℕ). o.1) g in
      subst (Dumped []) (sym (dump_none r e)) (
        ap (λ (l : List ℕ). let w : Show = record { queue = map p.pages l; screen = p.shown } in w)
            none_left,
        record {
          ring = rest_ring none r e;
          held = subst (All (λ a. (p.taken a ≡ true) × (a ≢ 0))) (sym none_left) tt;
          distinct = subst Distinct (sym none_left) tt;
        },
      )
  dumped none r (x ∷ q) e f g = absurd (cc)
  dumped (some mat) r [] e f g = absurd (cc)
  dumped (some mat) r (x ∷ q) e f g =
      let same : mat ≡ x = cc in
      let rest : contents frame_slots r ≡ q = ap (λ (o : Option ℕ × List ℕ). o.1) g in
      let first : old_pages ≡ mat ∷ q = f ∙ ap (λ y. y ∷ q) (sym same) in
      let good = (subst (All (λ a. (p.taken a ≡ true) × (a ≢ 0))) first s.held).0.1 in
      subst (Dumped (x ∷ q)) (sym (dump_some mat r e good)) (
        subst (λ y. Dumped (y ∷ q) (after mat r)) same
          (after-Dumped mat r q (rest_ring (some mat) r e) rest first))

  -- A round of `thread_dump` shows the frame that was drawn first, if one waits.
  pub thread_dump-show_first :
      (view (thread_dump p) ≡ show_first (waiting p) p.shown) × IsSound (thread_dump p)
  thread_dump-show_first =
      let (out, r) = read frame_slots p.frames in
      dumped out r old_pages refl refl (dump_step out r refl)
