-- ===== src/Examples/Paths.antt =====
-- Requested paths, on the small file system.
use remote_hands.Shared.{
  ◌≡◌, ◌≢◌, ◌↔◌, refl, true, List, [], ◌∷◌, Text, codes, All, ok, err, length, suc, text_eq,
  path_traversal, arith, split, split_from, has_prefix, has_suffix, join,
}
use remote_hands.Path.Lexical.{render, is_abs, clean, join_path, elements, element, go_up}
use remote_hands.Path.Components.{IsName}
use remote_hands.Path.Containment.{Extends, is_under_dir_iff}
use remote_hands.Path.Validate.{Contained, validate_path-Contained}
use remote_hands.Path.Termination.{walk_up_terminates}
use remote_hands.Path.Requests.{validate_path_refuses, target_elements}
use remote_hands.Path.{
  is_under_dir, target_path, validate_path, resolve_home, walk_up, out_of_fuel, check_target, abs,
}
use remote_hands.Examples.Box.{link, real_home, file, box, resolve}

IsName-u : IsName (codes "u")
IsName-u = record {
  nonempty = ground arith;
  no_slash = ground arith;
  not_dot = ground arith;
  not_dot_dot = ground arith;
}

IsName-data : IsName (codes "data")
IsName-data = record {
  nonempty = ground arith;
  no_slash = ground arith;
  not_dot = ground arith;
  not_dot_dot = ground arith;
}

run_file : validate_path box [] link (codes "a") ≡ ok file
unfolding validate_path resolve_home abs is_abs has_prefix clean split split_from elements element
    text_eq go_up render join target_path join_path check_target is_under_dir has_suffix resolve
run_file = refl

validate_path-Contained_example :
    (home : Text) × (real : Text) × (resolve_home box [] link ≡ ok (home, real))
    × Contained box [] real file
validate_path-Contained_example = validate_path-Contained box [] link (codes "a") file run_file

abbrev home_names : List Text
home_names = codes "data" ∷ codes "u" ∷ []

home_named : All IsName home_names
home_named = (IsName-data, (IsName-u, tt))

is_under_dir_iff_example :
    (is_under_dir (render home_names) (render (codes "data" ∷ [])) ≡ true)
    ↔ Extends home_names (codes "data" ∷ [])
is_under_dir_iff_example =
    is_under_dir_iff home_names (codes "data" ∷ []) home_named (IsName-data, tt)

walk_up_terminates_example :
    walk_up box []
      (suc (length (clean (codes "/data//u/x/y"))))
      real_home
      (clean (codes "/data//u/x/y"))
      (clean (codes "/data//u/x/y"))
    ≢ out_of_fuel
walk_up_terminates_example =
    walk_up_terminates box [] real_home (codes "/data//u/x/y") (unfold is_abs has_prefix in refl)

home_resolved : resolve_home box [] real_home ≡ ok (render home_names, render home_names)
unfolding resolve_home abs is_abs has_prefix clean split split_from elements element text_eq render
    join resolve
home_resolved = refl

out_of_home : ¬ Extends home_names (target_elements home_names (codes "../v"))
unfolding elements element go_up split split_from text_eq
out_of_home (rest, e) = ground arith

validate_path_refuses_example : validate_path box [] real_home (codes "../v") ≡ err path_traversal
validate_path_refuses_example =
    validate_path_refuses box [] real_home home_names home_names (codes "../v") home_resolved
      home_named home_named (λ e. cc) (unfold is_abs has_prefix in refl) out_of_home out_of_home
