-- ===== src/Batch/Worker/Dispatch.antt =====
-- `batch_process_locked` answers every request of its batch, in one dispatch with all requests of
-- the same key.
use pg_cuvs.Base.{
  ℕ, ◌<◌, ◌≡◌, refl, ap, sym, subst, ◌∙◌, inl, inr, ◌↔◌, List, true, false, false≢true, Option,
  some, get_elem?, map, ◌==◌, ==_iff, arith, Bool-cases, get_elem?-map, get_elem?-eq-get_or,
  get_elem?-lt, length-map, get_or,
}
use mathlib.Core.Option
use pg_cuvs.Batch.{Key, batch_group, same_key}
use pg_cuvs.Batch.Groups.{batch_group_classes, batch_group_dense, length-batch_group}
use pg_cuvs.Base.Member.{elem}
use pg_cuvs.Batch.Worker.{Answer, tagged, members, process}
use pg_cuvs.Batch.Worker.Members.{
  Below, members-other, members-own, Tagged-at, group_mode-at, run_groups-near, members-out,
  run_groups-out,
}

same_key-mode : (a b : Key) → same_key a b ≡ true → b.mode ≡ a.mode
unfolding same_key
same_key-mode a b h = ground arith

module _ (key : ℕ → Key) (batch : List ℕ) where
  abbrev gid : List ℕ
  gid = (batch_group (map key batch)).0

  key_at : (i r : ℕ) → get_elem? batch i ≡ some r → get_elem? (map key batch) i ≡ some (key r)
  key_at i r e = get_elem?-map key batch i ∙ ap (Option.map key) e

  -- Every request of the batch has a group.
  group_at : (i r : ℕ) → get_elem? batch i ≡ some r → (g : ℕ) × (get_elem? gid i ≡ some g)
  group_at i r e = (
    get_or gid i 0,
    get_elem?-eq-get_or gid i 0 (
        omega (
          arith,
          length-batch_group (map key batch),
          length-map batch key,
          get_elem?-lt batch i e,
        )),
  )

  same_group :
      (i j r x g h : ℕ)
      → get_elem? batch i ≡ some r
      → get_elem? batch j ≡ some x
      → get_elem? gid i ≡ some g
      → get_elem? gid j ≡ some h
      → (g ≡ h) ↔ (same_key (key r) (key x) ≡ true)
  same_group i j r x g h e e' tag tag' =
      batch_group_classes (map key batch) i j (key r) (key x) g h (key_at i r e) (key_at j x e') tag
        tag'

  -- The members of a request's group are the requests of its key.
  same_members :
      (b i j r x g : ℕ)
      → Below b batch
      → get_elem? batch i ≡ some r
      → get_elem? batch j ≡ some x
      → get_elem? gid i ≡ some g
      → (elem x (members g (tagged batch gid)) ≡ true) ↔ (same_key (key r) (key x) ≡ true)
  same_members b i j r x g v e e' tag =
      let ts = tagged batch gid in
      let (h, tag') = group_at j x e' in
      let alike = same_group i j r x g h e e' tag tag' in
      (
        λ inside. elim (Bool-cases (g == h)) [
          | inl on ↦ alike.0 ((==_iff g h).0 on)
          | inr off ↦ absurd (
              false≢true (
                sym (members-other x h g ts (Tagged-at batch gid b j x h v e' tag') (ground arith))
                ∙ inside))
        ],
        λ same.
            subst (λ (q : ℕ). elem x (members q ts) ≡ true) (sym (alike.1 same))
              (members-own batch gid j x h e' tag'),
      )

  -- `batch_process_locked` on a batch in the order of arrival: every request is answered by the
  -- dispatch of its mode over a group of requests, which has a request of the batch as a member
  -- exactly if their keys are the same.
  pub process-one_dispatch :
      (run : ℕ → List ℕ → ℕ → Answer) (answers : ℕ → Option Answer) (b i r : ℕ)
      → Below b batch
      → get_elem? batch i ≡ some r
      → (ms : List ℕ) × (process key run batch answers r ≡ some (run (key r).mode ms r))
        × ((j x : ℕ)
            → get_elem? batch j ≡ some x
            → (elem x ms ≡ true) ↔ (same_key (key r) (key x) ≡ true))
  unfolding process
  process-one_dispatch run answers b i r v e =
      let (g, tag) = group_at i r e in
      let ts = tagged batch gid in
      let in_range : g < (batch_group (map key batch)).1 =
        (batch_group_dense (map key batch) g).1 (i, tag) in
      let (j, x, e', tag', mode) = group_mode-at key batch gid i r g e tag in
      let alike = (same_group i j r x g g e e' tag tag').0 refl in
      (
        members g ts,
        run_groups-near key run ts (batch_group (map key batch)).1 0 g r answers
              (Tagged-at batch gid b i r g v e tag) (members-own batch gid i r g e tag)
              (omega arith) (omega (arith, in_range))
            ∙ ap (λ (m : ℕ). some (run m (members g ts) r))
                (mode ∙ same_key-mode (key r) (key x) alike),
        λ j x e'. same_members b i j r x g v e e' tag,
      )

-- A request that is not in the batch keeps what it has.
pub process-others :
    (key : ℕ → Key) (run : ℕ → List ℕ → ℕ → Answer) (batch : List ℕ) (answers : ℕ → Option Answer)
    (r : ℕ)
    → elem r batch ≡ false
    → process key run batch answers r ≡ answers r
unfolding process
process-others key run batch answers r out =
    run_groups-out key run (tagged batch (gid key batch)) (batch_group (map key batch)).1 0 answers
      r (λ g. members-out batch (gid key batch) r g out)
