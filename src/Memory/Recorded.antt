-- ===== src/Memory/Recorded.antt =====
-- The episodes that Mem of internal/memory/store.go keeps of a goal, whatever is called.
use heros_agent.Base.{
  ℕ, suc, ◌+◌, ◌≤◌, leb, ◌&&◌, ◌||◌, ◌≡◌, refl, sym, ◌∙◌, ap, subst, arith, false, List, [], ◌∷◌,
  ◌++◌, String, str_eq, str_eq-true, eq_iff, Map, lookup, insert, lookup-insert, length, map, ◌⊎◌,
  inl, inr, Bool-cases,
}
use mathlib.Core.List.{Memᴰ}
use mathlib.Core.List.Memᴰ
use heros_agent.Errors.{ok}
use heros_agent.Memory.{Episode, Summary, Knowledge, compress}
use heros_agent.Memory.Compressed.{IsRun, IsPlain, IsCover, compress_lem}
use heros_agent.Memory.Mem.{
  Mem, under, append_episode, mark, save_summary, promote_knowledge, episodes_of, without_seqs,
  new_mem,
}

-- The episode is in the record, but for its mark: it may have been read before it got one.
abbrev pub IsStored : List Episode → Episode → Type 0
IsStored kept e = (f : Episode) × Memᴰ f kept × (f.seq ≡ e.seq) × (f.kind ≡ e.kind)

-- Calls of the store: new episodes, summaries that Compress made of stored episodes, and claims.
pub data Run (m : Mem) : Mem → Type 0 where
  start : Run m m
  appends : {n : Mem} (e : Episode) → e.summarised_by ≡ 0 → Run m n → Run m (append_episode e n).0
  saves :
      {n : Mem} (goal_id : String) (es : List Episode) (content : String) (now : ℕ) (s : Summary)
      → compress goal_id es content now ≡ ok s
      → ((e : Episode) → Memᴰ e es → IsStored (episodes_of goal_id n) e)
      → Run m n
      → Run m (save_summary s n).0
  promotes : {n : Mem} (k : Knowledge) → Run m n → Run m (promote_knowledge k n).0

-- Not summarised, or neither a failure nor an effect and in the range of the summary that it names.
abbrev pub IsAccounted : List Summary → Episode → Type 0
IsAccounted summaries e =
    (e.summarised_by ≡ 0)
    ⊎ (IsPlain e
        × (s : Summary) × Memᴰ s summaries
        × (s.id ≡ e.summarised_by)
        × (s.from_seq ≤ e.seq)
        × (e.seq ≤ s.to_seq))

-- Numbered from 1 in the order in which they came, and each accounted for.
pub record IsKept (summaries : List Summary) (es : List Episode) : Type 0 where
  pub numbered : IsRun 1 es
  pub accounted : (e : Episode) → Memᴰ e es → IsAccounted summaries e

abbrev pub IsRecorded : String → Mem → Type 0
IsRecorded goal_id m = IsKept (under goal_id m.summaries) (under goal_id m.episodes)

pub under-insert :
    {A : Type 0} (key other : String) (xs : List A) (m : Map (List A))
    → ((key ≡ other) × (under other (insert key xs m) ≡ xs))
      ⊎ ((str_eq key other ≡ false) × (under other (insert key xs m) ≡ under other m))
under-insert key other xs m =
    let read = lookup-insert key other xs m in
    elim (Bool-cases (str_eq key other)) [
      | inl same ↦ inl (str_eq-true key other same, ground arith)
      | inr apart ↦ inr (apart, ground arith)
    ]

pub under-insert_self :
    {A : Type 0} (key : String) (xs : List A) (m : Map (List A)) → under key (insert key xs m) ≡ xs
under-insert_self key xs m = elim (under-insert key key xs m) [
  | inl (_, same) ↦ same
  | inr (apart, _) ↦ absurd (ground (arith, eq_iff key key))
]

IsRun-append :
    (k : ℕ) (es : List Episode) (e : Episode)
    → IsRun k es
    → e.seq ≡ k + length es
    → IsRun k (es ++ e ∷ [])
IsRun-append k [] e run at = (omega (arith, at), tt)
IsRun-append k (f ∷ fs) e (first, run) at =
    (first, IsRun-append (suc k) fs e run (omega (arith, at)))

IsRun-mark :
    (id from to k : ℕ) (es : List Episode) → IsRun k es → IsRun k (map (mark id from to) es)
IsRun-mark id from to k [] run = tt
IsRun-mark id from to k (e ∷ es) (at, run) = (
  elim (Bool-cases (leb from e.seq && leb e.seq to)) [ inl h ↦ rw h at | inr h ↦ rw h at ],
  IsRun-mark id from to (suc k) es run,
)

IsRun-low : (k : ℕ) (es : List Episode) → IsRun k es → (e : Episode) → Memᴰ e es → k ≤ e.seq
IsRun-low k [] run e m = elim m [ ]
IsRun-low k (f ∷ fs) (at, run) e (Memᴰ.head same) =
    let is : e.seq ≡ f.seq = ap (λ (x : Episode). x.seq) same in omega (arith, is, at)
IsRun-low k (f ∷ fs) (at, run) e (Memᴰ.tail m) =
    let low = IsRun-low (suc k) fs run e m in omega (arith, low)

-- No two episodes of a run have one number.
IsRun-unique :
    (k : ℕ) (es : List Episode)
    → IsRun k es
    → (e f : Episode) → Memᴰ e es
    → Memᴰ f es
    → e.seq ≡ f.seq
    → e ≡ f
IsRun-unique k [] run e f m n same = elim m [ ]
IsRun-unique k (x ∷ xs) (at, run) e f (Memᴰ.head a) (Memᴰ.head b) same = a ∙ sym b
IsRun-unique k (x ∷ xs) (at, run) e f (Memᴰ.tail m) (Memᴰ.tail n) same =
    IsRun-unique (suc k) xs run e f m n same
IsRun-unique k (x ∷ xs) (at, run) e f (Memᴰ.head a) (Memᴰ.tail n) same =
    let is : e.seq ≡ x.seq = ap (λ (y : Episode). y.seq) a in
    let low = IsRun-low (suc k) xs run f n in absurd (omega (arith, is, at, low, same))
IsRun-unique k (x ∷ xs) (at, run) e f (Memᴰ.tail m) (Memᴰ.head b) same =
    let is : f.seq ≡ x.seq = ap (λ (y : Episode). y.seq) b in
    let low = IsRun-low (suc k) xs run e m in absurd (omega (arith, is, at, low, same))

IsAccounted-more :
    (old : List Summary) (s : Summary) (e : Episode)
    → IsAccounted old e
    → IsAccounted (old ++ s ∷ []) e
IsAccounted-more old s e (inl free) = inl free
IsAccounted-more old s e (inr (folds, t, there, is, low, high)) =
    inr (folds, t, Memᴰ.append_left (s ∷ []) there, is, low, high)

IsKept-append :
    (summaries : List Summary) (es : List Episode) (e : Episode)
    → e.seq ≡ suc (length es)
    → e.summarised_by ≡ 0
    → IsKept summaries es
    → IsKept summaries (es ++ e ∷ [])
IsKept-append summaries es e at free kept = record {
  numbered = IsRun-append 1 es e kept.numbered (omega (arith, at));
  accounted = λ f there. elim (Memᴰ.append_cases es there) [
    | inl old ↦ kept.accounted f old
    | inr new ↦ elim (Memᴰ.cases_cons new) [
      | inl same ↦ inl (ap (λ (x : Episode). x.summarised_by) same ∙ free)
      | inr nowhere ↦ elim nowhere [ ]
    ]
  ];
}

append_episode-IsRecorded :
    (goal_id : String) (e : Episode) (m : Mem)
    → e.summarised_by ≡ 0
    → IsRecorded goal_id m
    → IsRecorded goal_id (append_episode e m).0
unfolding append_episode
append_episode-IsRecorded goal_id e m free kept =
    let old = under e.goal_id m.episodes in
    let stored : Episode = record e { seq = suc (length old) } in
    elim (under-insert e.goal_id goal_id (old ++ stored ∷ []) m.episodes) [
      | inr (apart, same) ↦ subst (IsKept (under goal_id m.summaries)) (sym same) kept
      | inl (own, same) ↦
          let before = subst (λ g. IsRecorded g m) (sym own) kept in
          let after = IsKept-append (under e.goal_id m.summaries) old stored refl free before in
          subst (IsKept (under goal_id m.summaries)) (sym same)
            (subst (λ g. IsKept (under g m.summaries) (old ++ stored ∷ [])) own after)
    ]

IsPlain-kind : (e f : Episode) → e.kind ≡ f.kind → IsPlain f → IsPlain e
IsPlain-kind e f same (inl is) = inl (same ∙ is)
IsPlain-kind e f same (inr is) = inr (same ∙ is)

IsKept-mark :
    (old : List Summary) (es read : List Episode) (s : Summary) (id : ℕ)
    → IsCover s.goal_id read s
    → ((e : Episode) → Memᴰ e read → IsStored es e)
    → IsKept old es
    → IsKept (old ++ record s { id = id } ∷ []) (map (mark id s.from_seq s.to_seq) es)
IsKept-mark old es read s id cover stored kept = record {
  numbered = IsRun-mark id s.from_seq s.to_seq 1 es kept.numbered;
  accounted = λ e there.
      let (f, m, is) = Memᴰ.of_map (mark id s.from_seq s.to_seq) es there in
      subst (IsAccounted (old ++ record s { id = id } ∷ [])) is
        (elim (Bool-cases (leb s.from_seq f.seq && leb f.seq s.to_seq)) [
          | inr out ↦ rw out (IsAccounted-more old (record s { id = id }) f (kept.accounted f m))
          | inl within ↦
              let low : s.from_seq ≤ f.seq = ground arith in
              let high : f.seq ≤ s.to_seq = ground arith in
              let (r, there_r, at_r) = (cover.covered f.seq).0 (low, high) in
              let (g, there_g, at_g, kind) = stored r there_r in
              let one : g ≡ f = IsRun-unique 1 es kept.numbered g f there_g m (at_g ∙ at_r) in
              let folds : IsPlain f =
                IsPlain-kind f r (ap (λ (x : Episode). x.kind) (sym one) ∙ kind)
                  (cover.foldable r there_r).1 in
              rw within (
                inr (
                  IsPlain-kind (record f { summarised_by = id }) f refl folds,
                  record s { id = id },
                  Memᴰ.append_right old (Memᴰ.head refl),
                  refl,
                  low,
                  high,
                ))
        ]);
}

save_summary-IsRecorded :
    (goal_id : String) (read : List Episode) (s : Summary) (m : Mem)
    → IsCover s.goal_id read s
    → ((e : Episode) → Memᴰ e read → IsStored (under s.goal_id m.episodes) e)
    → IsRecorded goal_id m
    → IsRecorded goal_id (save_summary s m).0
unfolding save_summary
save_summary-IsRecorded goal_id read s m cover stored kept =
    let id = suc m.next_sum in
    let new = under s.goal_id m.summaries ++ record s { id = id } ∷ [] in
    let marked = map (mark id s.from_seq s.to_seq) (under s.goal_id m.episodes) in
    elim (under-insert s.goal_id goal_id new m.summaries) [
      | inl (own, sums) ↦ elim (under-insert s.goal_id goal_id marked m.episodes) [
        | inl (_, same) ↦
            let before = subst (λ g. IsRecorded g m) (sym own) kept in
            let after =
              IsKept-mark (under s.goal_id m.summaries) (under s.goal_id m.episodes) read s id cover
                stored before in
            subst (λ l. IsKept l (under goal_id (insert s.goal_id marked m.episodes))) (sym sums)
              (subst (IsKept new) (sym same) after)
        | inr (apart, _) ↦ absurd (ground (arith, eq_iff s.goal_id goal_id))
      ]
      | inr (apart, sums) ↦ elim (under-insert s.goal_id goal_id marked m.episodes) [
        | inl (own, _) ↦ absurd (ground (arith, eq_iff s.goal_id goal_id))
        | inr (_, same) ↦
            subst (λ l. IsKept l (under goal_id (insert s.goal_id marked m.episodes))) (sym sums)
              (subst (IsKept (under goal_id m.summaries)) (sym same) kept)
      ]
    ]

promote_knowledge-IsRecorded :
    (goal_id : String) (k : Knowledge) (m : Mem)
    → IsRecorded goal_id m
    → IsRecorded goal_id (promote_knowledge k m).0
unfolding promote_knowledge
promote_knowledge-IsRecorded goal_id k m kept =
    elim (Bool-cases (str_eq k.evidence_goal_id "" || without_seqs k.evidence_seqs)) [
      | inl h ↦ rw h kept
      | inr h ↦ rw h kept
    ]

-- Whatever is called of the store, the episodes of a goal stay numbered from 1 in the order in which
-- they came; and an episode that is marked as summarised is neither a failure nor an effect, and the
-- summary that it names is in the store and covers it. Conditions: a new episode comes without a mark,
-- and a summary is one that Compress made of episodes that were read from the store, at any time.
pub Run-IsRecorded :
    (goal_id : String) {m n : Mem} → Run m n → IsRecorded goal_id m → IsRecorded goal_id n
unfolding episodes_of
Run-IsRecorded goal_id start kept = kept
Run-IsRecorded goal_id (appends {n} e free r) kept =
    append_episode-IsRecorded goal_id e n free (Run-IsRecorded goal_id r kept)
Run-IsRecorded goal_id (saves {n} g es content now s made stored r) kept =
    let cover = (compress_lem g es content now).1 s made in
    let at : g ≡ s.goal_id = sym cover.whose in
    save_summary-IsRecorded goal_id es s n (subst (λ h. IsCover h es s) at cover)
      (λ e there. subst (λ h. IsStored (under h n.episodes) e) at (stored e there))
      (Run-IsRecorded goal_id r kept)
Run-IsRecorded goal_id (promotes {n} k r) kept =
    promote_knowledge-IsRecorded goal_id k n (Run-IsRecorded goal_id r kept)

-- Nothing has been recorded.
pub IsRecorded-new : (goal_id : String) → IsRecorded goal_id new_mem
unfolding lookup
IsRecorded-new goal_id = record { numbered = tt; accounted = λ e there. elim there [ ] }
