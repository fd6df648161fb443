-- ===== src/Examples/Requests.antt =====
-- File requests and searches on the small file system.
use remote_hands.Shared.{
  ◌≡◌, refl, Bool, true, false, List, [], ◌∷◌, ◌++◌, Text, codes, pos, All, ok, err, path_traversal,
  text_eq, arith, split, split_from, has_prefix, has_suffix, join, index_byte, none,
}
use remote_hands.Path.Lexical.{dot, render, is_abs, clean, join_path, elements, element, go_up}
use remote_hands.Path.Components.{IsName}
use remote_hands.Path.{validate_path, resolve_home, target_path, check_target, is_under_dir, abs}
use remote_hands.File.{
  read_file, delete_file, delete_target, then_do, delete_error, seek_to, read_rest, check_empty,
}
use remote_hands.File.Safety.{delete_file-dot, ReadsFiles}
use remote_hands.Grep.{GrepMatch, is_binary, search_content}
use remote_hands.Grep.Search.{Among, Found, around, search_content_lem}
use remote_hands.Grep.Ripgrep.{RgLine, matched, context, begin, parse_ripgrep_json}
use remote_hands.Grep.Ripgrep.Order.{NoBefore, parse_ripgrep_json-NoBefore}
use remote_hands.Examples.Box.{link, real_home, file, box, resolve, info_at, dir_info}

run_outside : validate_path box [] link (codes "../../etc") ≡ err path_traversal
unfolding validate_path resolve_home abs is_abs has_prefix clean split split_from elements element
    text_eq go_up render join target_path join_path check_target is_under_dir has_suffix resolve
run_outside = refl

run_delete : delete_target box link [] (codes "a") false ≡ ok file
unfolding delete_target check_empty validate_path resolve_home abs is_abs has_prefix clean split
    split_from elements element text_eq go_up render join target_path join_path check_target
    is_under_dir has_suffix resolve info_at
run_delete = refl

linked_home : All IsName (codes "home" ∷ codes "u" ∷ [])
linked_home = (
  record {
    nonempty = ground arith;
    no_slash = ground arith;
    not_dot = ground arith;
    not_dot_dot = ground arith;
  },
  (
    record {
      nonempty = ground arith;
      no_slash = ground arith;
      not_dot = ground arith;
      not_dot_dot = ground arith;
    },
    tt,
  ),
)

linked_home_resolved :
    resolve_home box [] link ≡ ok (render (codes "home" ∷ codes "u" ∷ []), real_home)
unfolding resolve_home abs is_abs has_prefix clean split split_from elements element text_eq render
    join resolve
linked_home_resolved = refl

delete_file-dot_example :
    delete_file box link dot true []
    ≡ then_do box (ok tt, real_home) (delete_error box) (λ s1. (ok tt, s1))
delete_file-dot_example =
    delete_file-dot box [] link real_home (codes "home" ∷ codes "u" ∷ []) dir_info linked_home
      linked_home_resolved (unfold resolve text_eq render join in refl) (λ e. ground (arith, e))
      (unfold info_at text_eq in refl)

box_reads : ReadsFiles box (λ f. f)
box_reads = record {
  seek_left = λ f g n e. ground (arith, e);
  read_all_left = λ f c e. ground (arith, e);
  read_limited_left = λ f n c e. ground (arith, e);
}

run_read : read_file box link [] (codes "a") (pos 4) (pos 2) ≡ ok (codes "tw")
unfolding read_file seek_to read_rest validate_path resolve_home abs is_abs has_prefix clean split
    split_from elements element text_eq go_up render join target_path join_path check_target
    is_under_dir has_suffix resolve info_at
run_read = refl

abbrev begins_with_t : Text → Bool
begins_with_t = λ line. has_prefix line (codes "t")

text_content : is_binary (codes "one\ntwo\nthree") ≡ false
unfolding is_binary index_byte
text_content = refl

search_content_lem_example :
    ((m : GrepMatch)
      → Among m (search_content begins_with_t (codes "a") (pos 1) (codes "one\ntwo\nthree"))
      → Found begins_with_t (codes "a") (pos 1) (split 10 (codes "one\ntwo\nthree")) m)
    × ((front : List Text) (line : Text) (back : List Text)
        → split 10 (codes "one\ntwo\nthree") ≡ front ++ line ∷ back
        → begins_with_t line ≡ true
        → Among
            (around (codes "a") (pos 1) front line back)
            (search_content begins_with_t (codes "a") (pos 1) (codes "one\ntwo\nthree")))
search_content_lem_example =
    search_content_lem begins_with_t (codes "a") (pos 1) (codes "one\ntwo\nthree") text_content

abbrev rg_lines : List RgLine
rg_lines =
    begin
    ∷ context file (codes "one\n") 1
    ∷ matched file (codes "two\n") 2
    ∷ context file (codes "three\n") 3
    ∷ []

parse_ripgrep_json-NoBefore_example :
    (ms : List GrepMatch) × (parse_ripgrep_json real_home rg_lines none ≡ ok ms) × All NoBefore ms
parse_ripgrep_json-NoBefore_example = parse_ripgrep_json-NoBefore real_home rg_lines (ground arith)
