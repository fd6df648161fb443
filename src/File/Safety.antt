-- ===== src/File/Safety.antt =====
-- worker/file.go: what the file requests leave alone, and what they read and delete.
use remote_hands.Shared.{
  ◌≡◌, ◌≢◌, refl, ap, ◌∙◌, Bool, true, false, List, [], ◌∷◌, Text, text_eq, text_eq_iff, ℤ,
  is_positive, to_ℕ, take, drop, arith, if◌then◌else◌, ok, err, Error, Result-cases, inl, inr, All,
  split, split_from, has_prefix,
}
use remote_hands.Host.{Host, Info}
use mathlib.Core.List.{reverse-reverse}
use remote_hands.Path.Lexical.{dot, render, is_abs, elements, element}
use remote_hands.Path.Components.{IsName}
use remote_hands.Path.Requests.{target_path-render}
use remote_hands.Path.Validate.{is_under_dir_refl}
use remote_hands.Path.{validate_path, resolve_home, target_path, check_target}
use remote_hands.File.{
  path_error, read_file, write_file, delete_file, delete_target, then_do, delete_error, seek_to,
  read_rest,
}

-- A write and a deletion whose path is not empty and is refused by `ValidatePath` fail with that
-- error, as the requests report it, and change nothing.
pub refused_unchanged :
    (os : Host) (s : os.State) (home path content : Text) (mode : ℤ) (recursive : Bool) (e : Error)
    → path ≢ []
    → validate_path os s home path ≡ err e
    → (write_file os home path content mode s ≡ (err (path_error e), s))
      × (delete_file os home path recursive s ≡ (err (path_error e), s))
unfolding write_file delete_file
refused_unchanged os s home [] content mode recursive e n v = absurd (n refl)
refused_unchanged os s home (c ∷ path) content mode recursive e n v = (rw v, rw v)

-- No deletion that the checks let through removes the path that the service holds as its home
-- directory.
pub delete_target-ne-home :
    (os : Host) (s : os.State) (home path p : Text) (recursive : Bool)
    → delete_target os home s path recursive ≡ ok p
    → p ≢ home
unfolding delete_target
delete_target-ne-home os s home path p recursive e same = ground (arith, text_eq_iff p home)

-- The request `.` names the home directory, by its real path.
validate_path-dot :
    (os : Host) (s : os.State) (home real_home : Text) (hs : List Text)
    → All IsName hs
    → resolve_home os s home ≡ ok (render hs, real_home)
    → os.eval_symlinks s (render hs) ≡ ok real_home
    → validate_path os s home dot ≡ ok real_home
unfolding validate_path check_target
validate_path-dot os s home real_home hs h v e =
    let named : target_path (render hs) dot ≡ render hs =
      target_path-render hs dot h (unfold is_abs has_prefix in refl)
      ∙ unfold split split_from elements element text_eq in ap render (reverse-reverse hs) in
    rw (v, named, e)
      (ground (
        arith,
        is_under_dir_refl os s real_home (render hs),
        is_under_dir_refl os s real_home real_home,
      ))

-- The comparison is with the path as configured. Where the real home directory is another one, as
-- when the configured path leads through a symbolic link, and can be examined, the recursive
-- deletion of `.` is one `RemoveAll` of the real home directory.
pub delete_file-dot :
    (os : Host) (s : os.State) (home real_home : Text) (hs : List Text) (info : Info)
    → All IsName hs
    → resolve_home os s home ≡ ok (render hs, real_home)
    → os.eval_symlinks s (render hs) ≡ ok real_home
    → real_home ≢ home
    → os.lstat s real_home ≡ ok info
    → delete_file os home dot true s
      ≡ then_do os (os.remove_all s real_home) (delete_error os) (λ s1. (ok tt, s1))
unfolding delete_file
delete_file-dot os s home real_home hs info h v e n l =
    rw (validate_path-dot os s home real_home hs h v e, l)
      (ground (arith, text_eq_iff real_home home, n))

-- What `offset` and `limit` leave of a content.
abbrev pub section : ℤ → ℤ → Text → Text
section offset limit content =
    let behind : Text = if is_positive offset then drop (to_ℕ offset) content else content in
    if is_positive limit then take (to_ℕ limit) behind else behind

-- What `*os.File` documents: `Seek` from the start moves to the offset, `io.ReadAll` reads what is
-- left, and an `io.LimitReader` stops after its limit.
pub record ReadsFiles (os : Host) (left : os.File → Text) : Type 0 where
  pub seek_left : (f g : os.File) (n : ℤ) → os.seek f n ≡ ok g → left g ≡ drop (to_ℕ n) (left f)
  pub read_all_left : (f : os.File) (c : Text) → os.read_all f ≡ ok c → c ≡ left f
  pub read_limited_left :
      (f : os.File) (n : ℤ) (c : Text) → os.read_limited f n ≡ ok c → c ≡ take (to_ℕ n) (left f)

read_section :
    (os : Host) (left : os.File → Text) (laws : ReadsFiles os left) (offset limit : ℤ)
    (f g : os.File) (c : Text)
    → seek_to os offset f ≡ ok g
    → read_rest os limit g ≡ ok c
    → c ≡ section offset limit (left f)
unfolding seek_to read_rest
read_section os left laws offset limit f g c sk e =
    let placed : left g ≡ (if is_positive offset then drop (to_ℕ offset) (left f) else left f) =
      elim (Result-cases (os.seek f offset)) [
        | inl (h, v) ↦ ground (arith, laws.seek_left f h offset v)
        | inr (x, v) ↦ ground arith
      ] in
    elim (Result-cases (os.read_limited g limit)) [
      | inl (a, v) ↦ elim (Result-cases (os.read_all g)) [
        | inl (b, w) ↦
            ground (arith, placed, laws.read_limited_left g limit a v, laws.read_all_left g b w)
        | inr (y, w) ↦ ground (arith, placed, laws.read_limited_left g limit a v)
      ]
      | inr (x, v) ↦ elim (Result-cases (os.read_all g)) [
        | inl (b, w) ↦ ground (arith, placed, laws.read_all_left g b w)
        | inr (y, w) ↦ ground arith
      ]
    ]

-- Where the operating system reads files as documented, a successful read returns the section of
-- the opened file that `offset` and `limit` ask for; the file was opened at the path that
-- `ValidatePath` returned and is not a directory.
pub read_file_lem :
    (os : Host) (left : os.File → Text) (laws : ReadsFiles os left) (s : os.State)
    (home path c : Text) (offset limit : ℤ)
    → read_file os home s path offset limit ≡ ok c
    → (p : Text) × (info : Info) × (f : os.File) × (validate_path os s home path ≡ ok p)
      × (os.stat s p ≡ ok info)
      × (info.is_dir ≡ false)
      × (os.open_file s p ≡ ok f)
      × (c ≡ section offset limit (left f))
unfolding read_file
read_file_lem os left laws s home path c offset limit e =
    elim (Result-cases (validate_path os s home path)) [
      | inr (x, v) ↦ absurd (ground arith)
      | inl (p, v) ↦ elim (Result-cases (os.stat s p)) [
        | inr (x, st) ↦ absurd (ground arith)
        | inl (info, st) ↦ elim (Result-cases (os.open_file s p)) [
          | inr (x, op) ↦ absurd (ground arith)
          | inl (f, op) ↦ elim (Result-cases (seek_to os offset f)) [
            | inr (x, sk) ↦ absurd (ground arith)
            | inl (g, sk) ↦ (
              p,
              info,
              f,
              v,
              st,
              ground arith,
              op,
              read_section os left laws offset limit f g c sk (ground arith),
            )
          ]
        ]
      ]
    ]
