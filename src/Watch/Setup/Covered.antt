-- ===== src/Watch/Setup/Covered.antt =====
-- worker/watch.go: the directories that watchFiles starts with.
use remote_hands.Shared.{
  Bool, true, false, ◌&&◌, ◌≡◌, ap, inl, inr, List, [], ◌∷◌, ◌++◌, all, All, some, Text,
  text_eq_iff, ok, is_empty, Bool-cases, Option-cases, if_either, arith,
}
use remote_hands.Path.Lexical.{rel, dir}
use remote_hands.Watch.{
  Event, FileEvent, Watching, Round, is_matched, watch_new, watch_round, watch_loop,
  map_fsnotify_event,
}
use remote_hands.Path.{is_under_dir}
use remote_hands.Watch.Events.{report-added, Wanted, watch_loop-Wanted}
use remote_hands.Watch.Setup.{
  Visited, Starting, holds, add_dir, visit, visit_all, watch_dirs, watch_files,
}

add_dir_self : (d : Text) (dirs : List Text) → holds d (add_dir d dirs) ≡ true
unfolding add_dir
add_dir_self d dirs = ground (arith, text_eq_iff d d)

add_dir_keeps :
    (d e : Text) (dirs : List Text) → holds e dirs ≡ true → holds e (add_dir d dirs) ≡ true
unfolding add_dir
add_dir_keeps d e dirs h = ground arith

visit_keeps :
    (w : Watching) (v : Visited) (e : Text) (dirs : List Text)
    → holds e dirs ≡ true
    → holds e (visit w v dirs) ≡ true
unfolding visit
visit_keeps w v e dirs h =
    if_either (λ l. holds e l ≡ true) v.failed dirs _ h
      (if_either (λ l. holds e l ≡ true) v.is_dir _ _ (add_dir_keeps v.path e dirs h)
        (elim (Option-cases (rel w.home v.path)) [
          | inl o ↦ rw o h
          | inr (path, o) ↦ rw o (
              if_either (λ l. holds e l ≡ true) (is_matched w path) _ dirs
                (add_dir_keeps (dir v.path) e dirs h) h)
        ]))

visit_all_keeps :
    (w : Watching) (vs : List Visited) (e : Text) (dirs : List Text)
    → holds e dirs ≡ true
    → holds e (visit_all w vs dirs) ≡ true
unfolding visit_all
visit_all_keeps w [] e dirs h = h
visit_all_keeps w (v ∷ vs) e dirs h =
    visit_all_keeps w vs e (visit w v dirs) (visit_keeps w v e dirs h)

visit-dir :
    (w : Watching) (v : Visited) (dirs : List Text)
    → v.failed ≡ false
    → v.is_dir ≡ true
    → holds v.path (visit w v dirs) ≡ true
unfolding visit
visit-dir w v dirs f d = ground (arith, f, d, add_dir_self v.path dirs)

visit_all_covers :
    (w : Watching) (before after : List Visited) (v : Visited) (dirs : List Text)
    → v.failed ≡ false
    → v.is_dir ≡ true
    → holds v.path (visit_all w (before ++ v ∷ after) dirs) ≡ true
unfolding visit_all
visit_all_covers w [] after v dirs f d =
    visit_all_keeps w after v.path (visit w v dirs) (visit-dir w v dirs f d)
visit_all_covers w (u ∷ before) after v dirs f d =
    visit_all_covers w before after v (visit w u dirs) f d

watch_dirs-holds :
    (can : Text → Bool) (e : Text) (dirs : List Text)
    → can e ≡ true
    → holds e dirs ≡ true
    → holds e (watch_dirs can dirs) ≡ true
unfolding watch_dirs
watch_dirs-holds can e [] c h = h
watch_dirs-holds can e (d ∷ dirs) c h =
    ground (arith, text_eq_iff d e, watch_dirs-holds can e dirs c)

holds-append : (e : Text) (l m : List Text) → holds e l ≡ true → holds e (l ++ m) ≡ true
holds-append e [] m h = cc
holds-append e (d ∷ l) m h = ground (arith, holds-append e l m)

-- A round only adds to the directories that the watcher was given.
watch_round-holds :
    (w : Watching) (added : List Text) (event : Event) (e : Text)
    → holds e added ≡ true
    → holds e (watch_round w added event).added ≡ true
unfolding watch_round watch_new
watch_round-holds w added event e h = elim (Bool-cases (is_under_dir w.home event.name)) [
  | inr u ↦ rw (u, watch_round) h
  | inl u ↦ elim (Option-cases (rel w.home event.name)) [
    | inl r ↦ rw (u, watch_round, r) h
    | inr (path, r) ↦ elim (Bool-cases (is_matched w path)) [
      | inl m ↦
          rw (u, watch_round, r, m) (rw (report-added w added path (map_fsnotify_event event.op)) h)
      | inr m ↦
          rw (u, watch_round, r, m)
            (if_either (λ (k : Round). holds e k.added ≡ true)
              (event.op.create && w.is_directory event.name) _ _
              (holds-append e added (event.name ∷ []) h) h)
    ]
  ]
]

watch_loop-holds :
    (w : Watching) (added : List Text) (events : List Event) (e : Text)
    → holds e added ≡ true
    → holds e (watch_loop w added events).0 ≡ true
unfolding watch_loop
watch_loop-holds w added [] e h = h
watch_loop-holds w added (event ∷ events) e h =
    let more : holds e (watch_round w added event).added ≡ true =
      watch_round-holds w added event e h in
    if_either (λ (p : List Text × List FileEvent). holds e p.0 ≡ true)
      (watch_round w added event).returns _ _ more
      (watch_loop-holds w (watch_round w added event).added events e more)

-- What a watch that runs has come through.
watch_files-ok :
    (start : Starting) (w : Watching) (events : List Event) (added : List Text)
    (sent : List FileEvent) (home : Text) (visits : List Visited)
    → watch_files start w events ≡ ok (added, sent)
    → start.resolved_home ≡ some home
    → start.walk home ≡ some visits
    → (is_empty w.patterns ≡ false)
      × (all start.valid_pattern w.patterns ≡ true)
      × (watch_loop
            (record w { home = home })
            (watch_dirs start.can_watch (visit_all (record w { home = home }) visits (home ∷ [])))
            events
          ≡ (added, sent))
unfolding watch_files
watch_files-ok start w events added sent home visits e at_home walked =
    elim (Bool-cases (is_empty w.patterns)) [
      | inl h ↦ cc (rw (h, watch_files) at e)
      | inr h ↦ elim (Bool-cases (all start.valid_pattern w.patterns)) [
        | inr g ↦ cc (rw (h, g, watch_files) at e)
        | inl g ↦ elim (Bool-cases start.new_watcher) [
          | inr n ↦ cc (rw (h, g, at_home, n, watch_files) at e)
          | inl n ↦ (h, g, cc (rw (h, g, at_home, n, walked, watch_files) at e))
        ]
      ]
    ]

-- A watch that runs was given patterns, all of them valid. Every event that it sends has a path that
-- one of the patterns matches, and a type. Every directory that its walk of the home directory
-- visited without an error, and that the watcher takes, is among those that the watcher has been given.
-- What fsnotify drops by itself, such as a directory that is removed, is not told here.
pub watch_files_covers :
    (start : Starting) (w : Watching) (events : List Event) (added : List Text)
    (sent : List FileEvent) (home : Text) (before after : List Visited) (v : Visited)
    → watch_files start w events ≡ ok (added, sent)
    → start.resolved_home ≡ some home
    → start.walk home ≡ some (before ++ v ∷ after)
    → v.failed ≡ false
    → v.is_dir ≡ true
    → start.can_watch v.path ≡ true
    → (holds v.path added ≡ true)
      × All (Wanted (record w { home = home })) sent
      × (is_empty w.patterns ≡ false)
      × (all start.valid_pattern w.patterns ≡ true)
unfolding watch_files
watch_files_covers start w events added sent home before after v e at_home walked f d can =
    let here : Watching = record w { home = home } in
    let dirs : List Text =
      watch_dirs start.can_watch (visit_all here (before ++ v ∷ after) (home ∷ [])) in
    let (some_patterns, valid, ran) =
      watch_files-ok start w events added sent home (before ++ v ∷ after) e at_home walked in
    (
      rw (← ap (λ (p : List Text × List FileEvent). p.0) ran) (
          watch_loop-holds here dirs events v.path (
            watch_dirs-holds start.can_watch v.path _ can
              (visit_all_covers here before after v (home ∷ []) f d))),
      rw (← ap (λ (p : List Text × List FileEvent). p.1) ran) (watch_loop-Wanted here dirs events),
      some_patterns,
      valid,
    )
