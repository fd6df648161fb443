-- ===== src/Examples/Box.antt =====
-- A small file system: `/home/u` is a symbolic link to `/data/u`, which holds the file `a`.
use remote_hands.Shared.{
  true, false, [], Text, codes, text_eq, to_ℕ, take, drop, if◌then◌else◌, Result, ok, err, OsError,
  not_exist,
}
use remote_hands.Host.{Host, Info}

abbrev pub link : Text
link = codes "/home/u"

abbrev pub real_home : Text
real_home = codes "/data/u"

abbrev pub file : Text
file = codes "/data/u/a"

abbrev pub dir_info : Info
dir_info = record { is_dir = true; is_symlink = false; size = 0; mod_time = 7; perm = 0o755 }

abbrev pub file_info : Info
file_info = record { is_dir = false; is_symlink = false; size = 3; mod_time = 7; perm = 0o644 }

unfoldable pub resolve : Text → Result OsError Text
unfolding text_eq
resolve p =
    if text_eq p link
    then ok real_home
    else if text_eq p real_home
    then ok real_home
    else if text_eq p (codes "/home/u/a")
    then ok file
    else if text_eq p file
    then ok file
    else err not_exist

unfoldable pub info_at : Text → Result OsError Info
unfolding text_eq
info_at p =
    if text_eq p link
    then ok dir_info
    else if text_eq p real_home
    then ok dir_info
    else if text_eq p file
    then ok file_info
    else err not_exist

-- The state is the path that was removed last.
abbrev pub box : Host
box = record {
  State = Text;
  File = Text;
  getwd = λ s. ok (codes "/srv");
  eval_symlinks = λ s p. resolve p;
  lstat = λ s p. info_at p;
  stat = λ s p. info_at p;
  open_file = λ s p. ok (codes "one\ntwo");
  seek = λ f n. ok (drop (to_ℕ n) f);
  read_all = λ f. ok f;
  read_limited = λ f n. ok (take (to_ℕ n) f);
  read_file = λ s p. ok (codes "one\ntwo");
  read_dir = λ s p. ok [];
  walk_dir = λ s p. [];
  mkdir_all = λ s p mode. (ok tt, s);
  write_file = λ s p c mode. (ok tt, s);
  chmod = λ s p mode. (ok tt, s);
  remove = λ s p. (ok tt, p);
  remove_all = λ s p. (ok tt, p);
}
