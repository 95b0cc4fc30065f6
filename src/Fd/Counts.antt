-- ===== src/Fd/Counts.antt =====
-- The reference counts of pipes in kernel/src/fd.rs: how many descriptors hold each end.
use ferrum_os.Prelude.{
  ℕ, zero, suc, ◌+◌, ◌-◌, ◌≡◌, refl, sym, ◌∙◌, Bool, ◌&&◌, Option, none, some, List, [], ◌∷◌, arith,
  if◌then◌else◌, ◌==◌, get_elem?, set,
}
use ferrum_os.Fd.{
  OpenFile, PipeInner, Objects, FdTable, modify_at, one_if, more_ends, fewer_ends, on_file, on_ref,
  acquire, drop_entry,
}

-- An end of a pipe: which files hold it, and how many the pipe counts.
pub data Side : Type 0 where
  writer reader : Side

abbrev pub holds : Side → OpenFile → Bool
holds writer f = f.writable
holds reader f = f.readable

abbrev pub counted : Side → PipeInner → ℕ
counted writer p = p.write_ends
counted reader p = p.read_ends

-- whether a file holds that end of pipe `k`, as a number
abbrev pub end_ref : Side → ℕ → OpenFile → Option ℕ → ℕ
end_ref side k f none = 0
end_ref side k f (some j) = one_if ((j == k) && holds side f)

abbrev pub end_in : Side → ℕ → Option OpenFile → ℕ
end_in side k none = 0
end_in side k (some f) = end_ref side k f f.pipe_ref

unfoldable pub end_of : Side → List OpenFile → ℕ → ℕ → ℕ
end_of side files k entry = end_in side k (get_elem? files entry)

abbrev pub slot_end : Side → List OpenFile → ℕ → Option ℕ → ℕ
slot_end side files k none = 0
slot_end side files k (some entry) = end_of side files k entry

-- how many slots of a table hold that end of pipe `k`
unfoldable pub refs : Side → List OpenFile → ℕ → FdTable → ℕ
unfolding end_of
refs side files k [] = 0
refs side files k (slot ∷ t) = slot_end side files k slot + refs side files k t

-- Every pipe counts, for each end, the slots of this table and `others` in the other tables.
pub record IsBalanced (others : Side → ℕ → ℕ) (o : Objects) (t : FdTable) : Type 0 where
  pub count :
      (side : Side) (k : ℕ) (p : PipeInner)
      → get_elem? o.pipes k ≡ some p
      → counted side p ≡ others side k + refs side o.files k t

pub refs-set :
    (side : Side) (files : List OpenFile) (k : ℕ) (t : FdTable) (i : ℕ) (old new : Option ℕ)
    → get_elem? t i ≡ some old
    → refs side files k (set t i new) + slot_end side files k old
      ≡ refs side files k t + slot_end side files k new
unfolding refs
refs-set side files k [] i old new h = absurd (ground arith)
refs-set side files k (s ∷ t) zero old new h = ground arith
refs-set side files k (s ∷ t) (suc i) old new h = omega (arith, refs-set side files k t i old new h)

get_elem?-modify_at :
    (ps : List PipeInner) (j k : ℕ) (f : PipeInner → PipeInner)
    → get_elem? (modify_at ps j f) k
      ≡ elim (get_elem? ps k) [ none ↦ none | some p ↦ some (if j == k then f p else p) ]
unfolding modify_at
get_elem?-modify_at [] j k f = refl
get_elem?-modify_at (p ∷ ps) zero zero f = refl
get_elem?-modify_at (p ∷ ps) zero (suc k) f = ground arith
get_elem?-modify_at (p ∷ ps) (suc j) zero f = ground arith
get_elem?-modify_at (p ∷ ps) (suc j) (suc k) f = ground (arith, get_elem?-modify_at ps j k f)

pub files-acquire : (o : Objects) (e : ℕ) → (acquire o e).files ≡ o.files
unfolding acquire
files-acquire o e = refl

pub files-drop_entry : (o : Objects) (e : ℕ) → (drop_entry o e).files ≡ o.files
unfolding drop_entry
files-drop_entry o e = refl

module _ (ps : List PipeInner) (side : Side) (k : ℕ) where
  -- what a pipe was before a change at pipe `j`
  before :
      (f : OpenFile) (j : ℕ) (change : PipeInner → PipeInner) (p' : PipeInner)
      → get_elem? (modify_at ps j change) k ≡ some p'
      → (p : PipeInner) × (get_elem? ps k ≡ some p) × (p' ≡ (if j == k then change p else p))
  before f j change p' h = go (get_elem? ps k) refl (sym (get_elem?-modify_at ps j k change) ∙ h)
    where
      go :
          (r : Option PipeInner)
          → get_elem? ps k ≡ r
          → elim r [ none ↦ none | some p ↦ some (if j == k then change p else p) ] ≡ some p'
          → (p : PipeInner) × (get_elem? ps k ≡ some p) × (p' ≡ (if j == k then change p else p))
      go none e h' = absurd (ground arith)
      go (some p) e h' = (p, e, ground arith)

  more_counted :
      (f? : Option OpenFile) (p' : PipeInner)
      → get_elem? (on_file more_ends ps f?) k ≡ some p'
      → (p : PipeInner) × (get_elem? ps k ≡ some p)
        × (counted side p' ≡ counted side p + end_in side k f?)
  more_counted none p' h = (p', h, omega arith)
  more_counted (some f) p' h = go f.pipe_ref h
    where
      go :
          (r : Option ℕ)
          → get_elem? (on_ref more_ends ps f r) k ≡ some p'
          → (p : PipeInner) × (get_elem? ps k ≡ some p)
            × (counted side p' ≡ counted side p + end_ref side k f r)
      go none h' = (p', h', omega arith)
      go (some j) h' =
          let (p, found, e) = before f j (more_ends f) p' h' in (p, found, ground arith)

  fewer_counted :
      (f? : Option OpenFile) (p' : PipeInner)
      → get_elem? (on_file fewer_ends ps f?) k ≡ some p'
      → (p : PipeInner) × (get_elem? ps k ≡ some p)
        × (counted side p' ≡ counted side p - end_in side k f?)
  fewer_counted none p' h = (p', h, omega arith)
  fewer_counted (some f) p' h = go f.pipe_ref h
    where
      go :
          (r : Option ℕ)
          → get_elem? (on_ref fewer_ends ps f r) k ≡ some p'
          → (p : PipeInner) × (get_elem? ps k ≡ some p)
            × (counted side p' ≡ counted side p - end_ref side k f r)
      go none h' = (p', h', omega arith)
      go (some j) h' =
          let (p, found, e) = before f j (fewer_ends f) p' h' in (p, found, ground arith)

-- `acquire` adds the ends of the file to the counts, `drop_entry` takes them away.
pub acquire-counted :
    (o : Objects) (e : ℕ) (side : Side) (k : ℕ) (p' : PipeInner)
    → get_elem? (acquire o e).pipes k ≡ some p'
    → (p : PipeInner) × (get_elem? o.pipes k ≡ some p)
      × (counted side p' ≡ counted side p + end_of side o.files k e)
unfolding acquire end_of
acquire-counted o e side k p' h = more_counted o.pipes side k (get_elem? o.files e) p' h

pub drop_entry-counted :
    (o : Objects) (e : ℕ) (side : Side) (k : ℕ) (p' : PipeInner)
    → get_elem? (drop_entry o e).pipes k ≡ some p'
    → (p : PipeInner) × (get_elem? o.pipes k ≡ some p)
      × (counted side p' ≡ counted side p - end_of side o.files k e)
unfolding drop_entry end_of
drop_entry-counted o e side k p' h = fewer_counted o.pipes side k (get_elem? o.files e) p' h
