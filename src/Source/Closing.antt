-- ===== src/Source/Closing.antt =====
-- src/core/source.c: a caller that closes a source again and again.
use gdox.Common.{
  ℕ, zero, suc, ◌+◌, ◌≡◌, refl, ap, ◌∙◌, Option, none, some, List, [], ◌∷◌, ◌++◌, replicate, length,
  arith,
}
use gdox.Fault.{ErrorCode, invalid_argument, Outcome, ok, failed}
use gdox.Source.{SourceOps, Source}
use gdox.Source.Dispatch.{
  closed_source, handle, opened_ops, close_prepared, opened, source_prepare_close, source_close,
}

-- The results of calls that failed
abbrev pub failures : List ErrorCode → List Outcome
failures [] = []
failures (code ∷ codes) = failed code ∷ failures codes

-- Three pointers that are there
all_some :
    {A B D R : Type 0} (a : Option A) (b : Option B) (d : Option D) (f : A → B → D → R) (x : A)
    (y : B) (z : D)
    → a ≡ some x
    → b ≡ some y
    → d ≡ some z
    → (elim a [
      | none ↦ none
      | some x' ↦ elim b [
        | none ↦ none
        | some y' ↦ elim d [ none ↦ none | some z' ↦ some (f x' y' z') ]
      ]
    ])
      ≡ some (f x y z)
all_some a b d f x y z ea eb ed = rw (ea, eb, ed) refl

module _ {C : Type 0} where
  -- What the preparations of an open handle answer, one after another: some failures, and then a
  -- success with the context that it leaves. A handle without a preparation is prepared.
  pub data Prepares (ops : SourceOps C) : C → List ErrorCode → C → Type 0 where
    unneeded : {c : C} → ops.prepare_close ≡ none → Prepares ops c [] c
    done :
        {c c' : C} {prepare : C → Outcome × C}
        → ops.prepare_close ≡ some prepare
        → prepare c ≡ (ok, c')
        → Prepares ops c [] c'
    again :
        {c c' c'' : C} {prepare : C → Outcome × C} {code : ErrorCode} {codes : List ErrorCode}
        → ops.prepare_close ≡ some prepare
        → prepare c ≡ (failed code, c')
        → Prepares ops c' codes c''
        → Prepares ops c (code ∷ codes) c''

  -- A caller that closes a handle so many times, with the results
  unfoldable pub close_times : ℕ → Source C → List Outcome × Source C
  close_times zero s = ([], s)
  close_times (suc n) s =
      let (result, s') = source_close s in
      let (results, s'') = close_times n s' in (result ∷ results, s'')

  -- The table has what `gdox_source_is_valid` wants, with this `close`.
  pub record Closes (ops : SourceOps C) (close : C → Outcome) : Type 0 where
    pub count : C → ℕ
    pub counts : ops.sector_count ≡ some count
    pub read : C → ℕ → ℕ → List ℕ → Outcome × List ℕ × C
    pub reads : ops.read ≡ some read
    pub closes : ops.close ≡ some close

  opened-handle :
      (ops : SourceOps C) (close : C → Outcome) (c : C) (has : Closes ops close)
      → opened (handle c ops)
        ≡ some (record {
          context = c;
          ops = ops;
          sector_count = has.count;
          read = has.read;
          close = close;
        })
  unfolding opened opened_ops
  opened-handle ops close c has =
      all_some ops.sector_count ops.read ops.close
        (λ count read closing. record {
          context = c;
          ops = ops;
          sector_count = count;
          read = read;
          close = closing;
        })
        has.count has.read close has.counts has.reads has.closes

  close_step :
      (ops : SourceOps C) (close : C → Outcome) (c c' : C) (result : Outcome)
      → Closes ops close
      → source_prepare_close (handle c ops) ≡ (result, handle c' ops)
      → source_close (handle c ops) ≡ elim result [
        | ok ↦ (close c', closed_source)
        | failed code ↦ (failed code, handle c' ops)
      ]
  unfolding source_close close_prepared
  close_step ops close c c' ok has e =
      simp
        (
          source_close,
          opened-handle ops close c has,
          e,
          close_prepared,
          opened-handle ops close c' has,
        )
        refl
  close_step ops close c c' (failed code) has e =
      simp (source_close, opened-handle ops close c has, e) refl

  prepare_step :
      (ops : SourceOps C) (close : C → Outcome) (c c' : C) (prepare : C → Outcome × C)
      (result : Outcome)
      → Closes ops close
      → ops.prepare_close ≡ some prepare
      → prepare c ≡ (result, c')
      → source_prepare_close (handle c ops) ≡ (result, handle c' ops)
  unfolding source_prepare_close
  prepare_step ops close c c' prepare result has e answer =
      simp (source_prepare_close, opened-handle ops close c has, e, answer) refl

  unprepared_step :
      (ops : SourceOps C) (close : C → Outcome) (c : C)
      → Closes ops close
      → ops.prepare_close ≡ none
      → source_prepare_close (handle c ops) ≡ (ok, handle c ops)
  unfolding source_prepare_close
  unprepared_step ops close c has e =
      simp (source_prepare_close, opened-handle ops close c has, e) refl

  closed_times :
      (n : ℕ)
      → close_times n closed_source ≡ (replicate n (failed invalid_argument), closed_source {C = C})
  unfolding close_times source_close opened
  closed_times zero = refl
  closed_times (suc n) = simp (closed_times n) refl

  then_times :
      (n : ℕ) (s s' s'' : Source C) (result : Outcome) (results : List Outcome)
      → source_close s ≡ (result, s')
      → close_times n s' ≡ (results, s'')
      → close_times (suc n) s ≡ (result ∷ results, s'')
  unfolding close_times
  then_times n s s' s'' result results e es = rw (e, es) refl

  prepared_step :
      (ops : SourceOps C) (close : C → Outcome) (c c' : C)
      → Closes ops close
      → Prepares ops c [] c'
      → source_prepare_close (handle c ops) ≡ (ok, handle c' ops)
  prepared_step ops close c c' has (unneeded e) = unprepared_step ops close c has e
  prepared_step ops close c c' has (done {prepare = prepare} e answer) =
      prepare_step ops close c c' prepare ok has e answer

  last_round :
      (ops : SourceOps C) (close : C → Outcome) (c c' : C) (later : ℕ)
      → Closes ops close
      → Prepares ops c [] c'
      → close_times (0 + suc later) (handle c ops)
        ≡ (close c' ∷ replicate later (failed invalid_argument), closed_source)
  last_round ops close c c' later has p =
      ap (λ n. close_times n (handle c ops)) count
      ∙ then_times later (handle c ops) closed_source closed_source (close c') _
          (close_step ops close c c' ok has (prepared_step ops close c c' has p))
          (closed_times later)
    where
      count : 0 + suc later ≡ suc later
      count = omega arith

  close_rounds :
      (ops : SourceOps C) (close : C → Outcome) (c c' : C) (codes : List ErrorCode) (later : ℕ)
      → Closes ops close
      → Prepares ops c codes c'
      → close_times (length codes + suc later) (handle c ops)
        ≡ (failures codes ++ (close c' ∷ replicate later (failed invalid_argument)), closed_source)
  close_rounds ops close c c' [] later has (unneeded e) =
      last_round ops close c c' later has (unneeded e)
  close_rounds ops close c c' [] later has (done e answer) =
      last_round ops close c c' later has (done e answer)
  close_rounds ops close c c' (code ∷ codes) later has
        (again {c' = c₁} {prepare = prepare} e answer p) =
      ap (λ n. close_times n (handle c ops)) count
      ∙ then_times (length codes + suc later) (handle c ops) (handle c₁ ops) closed_source
          (failed code) _
          (close_step ops close c c₁ (failed code) has
            (prepare_step ops close c c₁ prepare (failed code) has e answer))
          (close_rounds ops close c₁ c' codes later has p)
    where
      count : suc (length codes) + suc later ≡ suc (length codes + suc later)
      count = omega arith

  -- A caller closes an open handle again and again. Each call whose preparation fails gives that
  -- failure and keeps the handle open for the next; the first call whose preparation succeeds gives
  -- the answer of `close`, on the context as the preparations left it, and empties the handle;
  -- every later call is refused.
  pub source_close-retries :
      (ops : SourceOps C) (close : C → Outcome) (c c' : C) (codes : List ErrorCode) (later : ℕ)
      → Closes ops close
      → Prepares ops c codes c'
      → close_times (length codes + suc later) (handle c ops)
        ≡ (failures codes ++ (close c' ∷ replicate later (failed invalid_argument)), closed_source)
  source_close-retries ops close c c' codes later has p =
      close_rounds ops close c c' codes later has p
