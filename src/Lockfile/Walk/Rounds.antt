-- ===== src/Lockfile/Walk/Rounds.antt =====
-- Each round of the loop of `walk_info` keeps its invariant, and so does the whole walk.
use cppup.Base.{
  ℕ, zero, suc, ◌*◌, Bool, true, false, List, [], ◌∷◌, ◌≡◌, sym, ap, ◌∙◌, Bytes, contains, insert,
  Within, Within-cons, Within-known, AllIn, contains-insert_self, insert_new, Outcome, Ensures,
  Ensures-bind, Ensures-map, if_intro, map,
}
use cppup.Configuration.Package.{PackageInfo, name_of, children, dependencies}
use cppup.Lockfile.Walk.{
  WalkState, WalkFrame, WalkError, fresh, opened, push_children, emit, entry_from_info, walk_round,
  walk_loop, walk_info, walk_packages, tree_size,
}
use cppup.Lockfile.Walk.Invariant.{
  IsOrdered, IsOrdered-concat, names_after, names_after-concat, Covered, Covered-Within,
  Covered-push_children, extend, Within-extend, extend-Within, AllIn-extend, all_names,
  Within-all_names, all_names-push_children,
}
use cppup.Lockfile.Walk.Open.{
  AllOpen, AllOpen-push_children, AllOpen-insert, AllOpen-erase, NotOpen-of_stack,
}

-- The entries are ordered, and `done` are their names.
pub record IsGood (s : WalkState) : Type 0 where
  pub ordered : IsOrdered [] s.entries
  pub done_names : s.done ≡ names_after [] s.entries

-- The invariant of the loop. `target` are names that will be done when the stack is empty.
record Inv (target : List Bytes) (frames : List WalkFrame) (s : WalkState) : Type 0 where
  good : IsGood s
  covered : Covered s.done frames
  open_frames : AllOpen s.stack s.done frames
  kept : Within target (all_names s.done frames)

abbrev After : List Bytes → Outcome WalkError (List WalkFrame × WalkState) → Type 0
After target = Ensures (λ p. Inv target p.0 p.1)

emit-IsGood :
    (info : PackageInfo) (s : WalkState)
    → contains (name_of info) s.done ≡ false
    → AllIn s.done (map name_of (children (dependencies info)))
    → IsGood s
    → IsGood (emit info s)
unfolding emit entry_from_info
emit-IsGood info s new deps g = record {
  ordered =
      IsOrdered-concat [] s.entries (entry_from_info info) g.ordered (rw g.done_names at new)
        (rw g.done_names at deps);
  done_names =
      insert_new (name_of info) s.done new
      ∙ ap (◌∷◌ (name_of info)) g.done_names
      ∙ sym (names_after-concat [] s.entries (entry_from_info info));
}

emit-Inv :
    (target : List Bytes) (info : PackageInfo) (fs : List WalkFrame) (s : WalkState)
    → Inv target (opened info ∷ fs) s
    → Inv target fs (emit info s)
unfolding emit
emit-Inv target info fs s h =
    let (stacked, new, differs) = h.open_frames.0 in
    let inserted : insert (name_of info) s.done ≡ name_of info ∷ s.done = insert_new _ s.done new in
    record {
      good = emit-IsGood info s new h.covered.0 h.good;
      covered = rw inserted h.covered.1;
      open_frames =
          rw inserted (AllOpen-erase (name_of info) s.stack s.done fs differs h.open_frames.1);
      kept = rw inserted h.kept;
    }

skip-Inv :
    (target : List Bytes) (info : PackageInfo) (fs : List WalkFrame) (s : WalkState)
    → contains (name_of info) s.done ≡ true
    → Inv target (fresh info ∷ fs) s
    → Inv target fs s
skip-Inv target info fs s d h =
    let known : Within (name_of info ∷ s.done) s.done = Within-known (name_of info) s.done d in
    record {
      good = h.good;
      covered = Covered-Within (name_of info ∷ s.done) s.done fs known h.covered.1;
      open_frames = h.open_frames.1;
      kept = λ n c. Within-all_names (name_of info ∷ s.done) s.done fs known n (h.kept n c);
    }

open-Inv :
    (target : List Bytes) (info : PackageInfo) (fs : List WalkFrame) (s : WalkState)
    → contains (name_of info) s.done ≡ false
    → contains (name_of info) s.stack ≡ false
    → Inv target (fresh info ∷ fs) s
    → Inv target
        (push_children (children (dependencies info)) (opened info ∷ fs))
        (record s { stack = insert (name_of info) s.stack })
open-Inv target info fs s d t h =
    let infos = children (dependencies info) in
    let known : List Bytes = extend s.done infos in
    let wider : Within (name_of info ∷ s.done) (name_of info ∷ known) =
      Within-cons (name_of info) s.done known (Within-extend s.done infos) in
    record {
      good = record { ordered = h.good.ordered; done_names = h.good.done_names };
      covered =
          Covered-push_children s.done infos (opened info ∷ fs) (
            AllIn-extend s.done infos,
            Covered-Within _ (name_of info ∷ known) fs wider h.covered.1,
          );
      open_frames =
          AllOpen-push_children (insert (name_of info) s.stack) s.done infos (opened info ∷ fs) (
            (
              contains-insert_self (name_of info) s.stack,
              d,
              NotOpen-of_stack (name_of info) s.stack s.done fs t h.open_frames.1,
            ),
            AllOpen-insert (name_of info) s.stack s.done fs h.open_frames.1,
          );
      kept = λ n c.
          rw (all_names-push_children s.done infos (opened info ∷ fs))
            (Within-all_names _ (name_of info ∷ known) fs wider n (h.kept n c));
    }

walk_round-Inv :
    (target : List Bytes) (info : PackageInfo) (expanded : Bool) (fs : List WalkFrame)
    (s : WalkState)
    → Inv target (record { info = info; expanded = expanded } ∷ fs) s
    → After target (walk_round info expanded fs s)
unfolding walk_round
walk_round-Inv target info true fs s h = emit-Inv target info fs s h
walk_round-Inv target info false fs s h =
    if_intro (After target) (contains (name_of info) s.done) (λ d. skip-Inv target info fs s d h)
      (λ d.
        if_intro (After target) (contains (name_of info) s.stack) (λ _. tt)
          (λ t. open-Inv target info fs s d t h))

-- What a finished walk leaves: a good state in which all of `target` is done.
pub record IsFinished (target : List Bytes) (s : WalkState) : Type 0 where
  pub good : IsGood s
  pub all_done : Within target s.done

walk_loop-IsFinished :
    (fuel : ℕ) (target : List Bytes) (frames : List WalkFrame) (s : WalkState)
    → Inv target frames s
    → Ensures (IsFinished target) (walk_loop fuel frames s)
unfolding walk_loop
walk_loop-IsFinished fuel target [] s h = record { good = h.good; all_done = h.kept }
walk_loop-IsFinished zero target (f ∷ fs) s h = tt
walk_loop-IsFinished (suc fuel) target (f ∷ fs) s h =
    Ensures-bind (λ p. Inv target p.0 p.1) (IsFinished target) (walk_round f.info f.expanded fs s) _
      (walk_round-Inv target f.info f.expanded fs s h)
      (λ p h'. walk_loop-IsFinished fuel target p.0 p.1 h')

pub walk_info-IsFinished :
    (info : PackageInfo) (s : WalkState)
    → IsGood s
    → Ensures (IsFinished (name_of info ∷ s.done)) (walk_info info s)
unfolding walk_info
walk_info-IsFinished info s g =
    walk_loop-IsFinished (2 * tree_size info) (name_of info ∷ s.done) (fresh info ∷ []) s
      (record { good = g; covered = (tt, tt); open_frames = (tt, tt); kept = λ n c. c })

pub walk_packages-IsFinished :
    (infos : List PackageInfo) (s : WalkState)
    → IsGood s
    → Ensures (IsFinished (extend s.done infos)) (walk_packages infos s)
unfolding walk_packages
walk_packages-IsFinished [] s g = record { good = g; all_done = λ n c. c }
walk_packages-IsFinished (info ∷ infos) s g =
    Ensures-bind (IsFinished (name_of info ∷ s.done)) (IsFinished (extend s.done (info ∷ infos)))
      (walk_info info s) _ (walk_info-IsFinished info s g)
      (λ s' h.
        Ensures-map (IsFinished (extend s'.done infos)) (IsFinished (extend s.done (info ∷ infos)))
          (walk_packages infos s')
          (λ s'' f. record {
            good = f.good;
            all_done = λ n c. f.all_done n (extend-Within _ s'.done infos h.all_done n c);
          })
          (walk_packages-IsFinished infos s' h.good))
