-- ===== src/File/Written.antt =====
-- worker/file.go: reading a file that was written.
use remote_hands.Shared.{
  true, ◌≡◌, refl, ap, ◌∙◌, false, Text, is_empty, ℤ, is_positive, to_ℕ, take, drop, arith,
  if◌then◌else◌, ok, err, Bool-cases, Result-cases, inl, inr, Error, ℕ, OsError, Result,
}
use remote_hands.Host.{Host, Info}
use remote_hands.Path.Lexical.{dir}
use remote_hands.Path.{validate_path}
use remote_hands.File.{read_file, write_file, file_mode, seek_to, read_rest, then_do}
use remote_hands.File.Safety.{section}

-- An open file whose reads do not fail, with what is left of it: `io.ReadAll` reads that, and an
-- `io.LimitReader` stops after its limit.
pub record Reads (os : Host) (left : os.File → Text) (f : os.File) : Type 0 where
  pub reads_all : os.read_all f ≡ ok (left f)
  pub reads_limited :
      (n : ℤ) → is_positive n ≡ true → os.read_limited f n ≡ ok (take (to_ℕ n) (left f))

-- Nor does a `Seek` from its start, which moves to the offset.
pub record Readable (os : Host) (left : os.File → Text) (f : os.File) : Type 0 where
  pub here : Reads os left f
  pub seeks :
      (n : ℤ)
      → is_positive n ≡ true
      → (g : os.File) × (os.seek f n ≡ ok g) × (left g ≡ drop (to_ℕ n) (left f)) × Reads os left g

-- What `os.WriteFile` documents, with the `Chmod` behind it, which leaves the content: the path is
-- then a file, not a directory, and if it can be opened, the content is the one that was written.
pub record WritesFiles (os : Host) (left : os.File → Text) : Type 0 where
  pub is_file :
      (s s1 : os.State) (p c : Text) (mode : ℕ)
      → os.write_file s p c mode ≡ (ok tt, s1)
      → (info : Info) × (os.stat ((os.chmod s1 p mode).1) p ≡ ok info) × (info.is_dir ≡ false)
  pub holds :
      (s s1 : os.State) (p c : Text) (mode : ℕ) (f : os.File)
      → os.write_file s p c mode ≡ (ok tt, s1)
      → os.open_file ((os.chmod s1 p mode).1) p ≡ ok f
      → left f ≡ c

module _ (os : Host) where
  then_do-ok :
      (done : Result OsError (Unit {0}) × os.State) (report : OsError → Error)
      (rest : os.State → Result Error (Unit {0}) × os.State) (s' : os.State)
      → then_do os done report rest ≡ (ok tt, s')
      → (done ≡ (ok tt, done.1)) × (rest done.1 ≡ (ok tt, s'))
  unfolding then_do
  then_do-ok (ok _, s) report rest s' e = (refl, e)
  then_do-ok (err x, s) report rest s' e = absurd (ground arith)

  -- The steps of a write that succeeds.
  write_file-steps :
      (s s' : os.State) (home path c : Text) (mode : ℤ)
      → write_file os home path c mode s ≡ (ok tt, s')
      → (p : Text) × (s0 : os.State) × (s1 : os.State) × (validate_path os s home path ≡ ok p)
        × (os.write_file s0 p c (file_mode os mode) ≡ (ok tt, s1))
        × ((os.chmod s1 p (file_mode os mode)).1 ≡ s')
  unfolding write_file
  write_file-steps s s' home path c mode e = elim (Bool-cases (is_empty path)) [
    | inl h ↦ absurd (ground arith)
    | inr h ↦ elim (Result-cases (validate_path os s home path)) [
      | inr (x, v) ↦ absurd (ground arith)
      | inl (p, v) ↦
          let made = os.mkdir_all s (dir p) 0o755 in
          let put = os.write_file made.1 p c (file_mode os mode) in
          let (_, behind) = then_do-ok made _ _ s' (rw (h, v) at e) in
          let (w, changed) = then_do-ok put _ _ s' behind in
          (p, made.1, put.1, v, w, ap (λ t. t.1) changed)
    ]
  ]

module _ (os : Host) (left : os.File → Text) where
  read_rest_lem :
      (limit : ℤ) (f : os.File)
      → Reads os left f
      → read_rest os limit f ≡ ok (if is_positive limit then take (to_ℕ limit) (left f) else left f)
  unfolding read_rest
  read_rest_lem limit f reads = elim (Bool-cases (is_positive limit)) [
    | inl h ↦ rw (h, reads.reads_limited limit h) refl
    | inr h ↦ rw (h, reads.reads_all) refl
  ]

  seek_then_read :
      (offset limit : ℤ) (f : os.File)
      → Readable os left f
      → (g : os.File) × (seek_to os offset f ≡ ok g)
        × (read_rest os limit g ≡ ok (section offset limit (left f)))
  unfolding seek_to
  seek_then_read offset limit f readable = elim (Bool-cases (is_positive offset)) [
    | inl h ↦
        let (g, sk, at, reads) = readable.seeks offset h in
        (g, rw (h, sk) refl, rw (read_rest_lem limit g reads, h, at) refl)
    | inr h ↦ (f, rw h refl, rw (read_rest_lem limit f readable.here, h) refl)
  ]

  -- A file that can be opened and read is read.
  read_file-opened :
      (s : os.State) (home path p : Text) (offset limit : ℤ) (info : Info) (f : os.File)
      → validate_path os s home path ≡ ok p
      → os.stat s p ≡ ok info
      → info.is_dir ≡ false
      → os.open_file s p ≡ ok f
      → Readable os left f
      → read_file os home s path offset limit ≡ ok (section offset limit (left f))
  unfolding read_file
  read_file-opened s home path p offset limit info f v st d op readable =
      let (g, sk, rd) = seek_then_read offset limit f readable in rw (v, st, d, op, sk) rd

  -- What a successful write has written is what a read behind it gives, if the path still leads to
  -- the same file and that can be opened and read.
  pub read_file-write_file :
      (s s' : os.State) (home path c : Text) (mode offset limit : ℤ) (f : os.File)
      → Readable os left f
      → WritesFiles os left
      → write_file os home path c mode s ≡ (ok tt, s')
      → validate_path os s' home path ≡ validate_path os s home path
      → ((p : Text) → validate_path os s' home path ≡ ok p → os.open_file s' p ≡ ok f)
      → read_file os home s' path offset limit ≡ ok (section offset limit c)
  read_file-write_file s s' home path c mode offset limit f readable writes w same opens =
      let (p, s0, s1, v, put, changed) = write_file-steps os s s' home path c mode w in
      let (info, st, d) = writes.is_file s0 s1 p c (file_mode os mode) put in
      let v' : validate_path os s' home path ≡ ok p = same ∙ v in
      let held : left f ≡ c =
        writes.holds s0 s1 p c (file_mode os mode) f put (rw changed (opens p v')) in
      read_file-opened s' home path p offset limit info f v' (rw changed at st) d (opens p v')
        readable
      ∙ rw held refl
