-- ===== src/Db/Open/Scan.antt =====
-- Which data files a start finds.
use raft_bitcask.Prelude.{
  ℕ, zero, suc, ◌+◌, ◌-◌, ◌<◌, ◌≤◌, ◌≡◌, refl, sym, ap, ◌∙◌, Bool, true, false, not, ◌&&◌, List, [],
  ◌∷◌, ◌++◌, append_assoc, append-nil, leb, ltb, All, All-append, arith, Bool-cases, inl, inr,
}
use raft_bitcask.Db.Open.{scan, scan_files, is_empty, max_consecutive_missing}

-- The ids from one on.
abbrev pub ids_from : ℕ → ℕ → List ℕ
ids_from a zero = []
ids_from a (suc n) = a ∷ ids_from (a + 1) n

-- The files are those with the ids from `a` to below `b`.
abbrev pub AreFrom : (ℕ → Bool) → ℕ → ℕ → Type 0
AreFrom exists a b = (fid : ℕ) → exists fid ≡ (leb a fid && ltb fid b)

not_empty : (ids : List ℕ) (k : ℕ) → is_empty (ids ++ (k ∷ [])) ≡ false
not_empty [] k = refl
not_empty (j ∷ ids) k = refl

module _ (exists : ℕ → Bool) (a b : ℕ) (from : AreFrom exists a b) where
  -- Behind the last file.
  scan_after : (n fid missing : ℕ) (ids : List ℕ) → b ≤ fid → scan exists n fid missing ids ≡ ids
  unfolding scan
  scan_after zero fid missing ids h = refl
  scan_after (suc n) fid missing ids h =
      ground (arith, from fid, scan_after n (fid + 1) (missing + 1) ids (omega arith))

  -- Among the files, of which there are `k` more.
  scan_within :
      (k n fid missing : ℕ) (ids : List ℕ)
      → a ≤ fid
      → fid + k ≡ b
      → k ≤ n
      → scan exists n fid missing ids ≡ ids ++ ids_from fid k
  unfolding scan
  scan_within zero n fid missing ids h e r =
      scan_after n fid missing ids (omega arith) ∙ sym (append-nil ids)
  scan_within (suc k) zero fid missing ids h e r = absurd (omega arith)
  scan_within (suc k) (suc n) fid missing ids h e r =
      let here : exists fid ≡ true = from fid ∙ ground arith in
      rw (scan, here)
        (scan_within k n (fid + 1) 0 (ids ++ (fid ∷ [])) (omega arith) (omega arith) (omega arith)
          ∙ append_assoc ids (fid ∷ []) (ids_from (fid + 1) k))

  -- In front of them, by `k` ids.
  scan_before :
      (k n fid missing : ℕ)
      → fid + k ≡ a
      → a ≤ b
      → k + (b - a) ≤ n
      → scan exists n fid missing [] ≡ ids_from a (b - a)
  unfolding scan
  scan_before zero n fid missing e h r =
      let same : fid ≡ a = omega arith in
      scan_within (b - a) n fid missing [] (omega arith) (omega arith) (omega arith)
      ∙ ap (λ (t : ℕ). ids_from t (b - a)) same
  scan_before (suc k) zero fid missing e h r = absurd (omega arith)
  scan_before (suc k) (suc n) fid missing e h r =
      let lacks : exists fid ≡ false = from fid ∙ ground arith in
      rw (scan, lacks) (scan_before k n (fid + 1) (missing + 1) (omega arith) h (omega arith))

  -- Where the files have the ids from one to below another, which is at most 1000, a start finds
  -- all of them, in ascending order.
  pub scan_files-AreFrom : a ≤ b → b ≤ 1000 → scan_files exists ≡ ids_from a (b - a)
  unfolding scan_files
  scan_files-AreFrom h r = scan_before a 1000 0 0 (omega arith) h (omega arith)

scan-All :
    (exists : ℕ → Bool) (m n fid missing : ℕ) (ids : List ℕ)
    → fid + n ≤ m
    → All (λ k. k < m) ids
    → All (λ k. k < m) (scan exists n fid missing ids)
unfolding scan
scan-All exists m zero fid missing ids r h = h
scan-All exists m (suc n) fid missing ids r h = elim (Bool-cases (exists fid)) [
  | inl e ↦
      rw (scan, e)
        (scan-All exists m n (fid + 1) 0 (ids ++ (fid ∷ [])) (omega arith)
          (All-append (λ k. k < m) ids (fid ∷ []) h (omega arith, tt)))
  | inr e ↦ elim (Bool-cases (not (is_empty ids) && leb max_consecutive_missing (missing + 1))) [
    | inl stop ↦ rw (scan, e, stop) h
    | inr more ↦
        rw (scan, e, more) (scan-All exists m n (fid + 1) (missing + 1) ids (omega arith) h)
  ]
]

-- Whatever files there are, a start finds none with an id of 1000 or more.
pub scan_files-All : (exists : ℕ → Bool) → All (λ k. k < 1000) (scan_files exists)
unfolding scan_files
scan_files-All exists = scan-All exists 1000 1000 0 0 [] (omega arith) tt
