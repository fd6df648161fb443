-- ===== src/Git/Diff/Texts.antt =====
-- worker/git_diff.go: what the chunks of a patch hold.
use remote_hands.Shared.{
  ◌≡◌, ◌≢◌, refl, ap, ◌∙◌, Bool, true, false, ◌||◌, List, [], ◌∷◌, ◌++◌, Text, Text_eq, All,
  if◌then◌else◌,
}
use remote_hands.Git.{GoGit}
use remote_hands.Git.Diff.Patch.{
  DiffType, diff_insert, diff_delete, diff_equal, Operation, add, delete, Chunk, chunks_of,
  map_diff_op, DiffLibrary, Side, build_chunks, build_file_patch,
}

-- What a line diff says of the two texts.
unfoldable pub old_part : List (DiffType × Text) → Text
old_part [] = []
old_part ((diff_insert, t) ∷ diffs) = old_part diffs
old_part ((diff_delete, t) ∷ diffs) = t ++ old_part diffs
old_part ((diff_equal, t) ∷ diffs) = t ++ old_part diffs

unfoldable pub new_part : List (DiffType × Text) → Text
new_part [] = []
new_part ((diff_insert, t) ∷ diffs) = t ++ new_part diffs
new_part ((diff_delete, t) ∷ diffs) = new_part diffs
new_part ((diff_equal, t) ∷ diffs) = t ++ new_part diffs

-- What the chunks of a patch turn into what.
pub text_with : (Operation → Bool) → List Chunk → Text
text_with keeps [] = []
text_with keeps (c ∷ cs) =
    let rest = text_with keeps cs in if keeps c.op then c.content ++ rest else rest

abbrev pub is_old : Operation → Bool
is_old add = false
is_old _ = true

abbrev pub is_current : Operation → Bool
is_current delete = false
is_current _ = true

chunks_of-old :
    (diffs : List (DiffType × Text)) → text_with is_old (chunks_of diffs) ≡ old_part diffs
unfolding text_with chunks_of map_diff_op old_part
chunks_of-old [] = refl
chunks_of-old ((diff_insert, []) ∷ diffs) = chunks_of-old diffs
chunks_of-old ((diff_insert, c ∷ t) ∷ diffs) = chunks_of-old diffs
chunks_of-old ((diff_delete, []) ∷ diffs) = chunks_of-old diffs
chunks_of-old ((diff_delete, c ∷ t) ∷ diffs) = ap (λ r. (c ∷ t) ++ r) (chunks_of-old diffs)
chunks_of-old ((diff_equal, []) ∷ diffs) = chunks_of-old diffs
chunks_of-old ((diff_equal, c ∷ t) ∷ diffs) = ap (λ r. (c ∷ t) ++ r) (chunks_of-old diffs)

chunks_of-new :
    (diffs : List (DiffType × Text)) → text_with is_current (chunks_of diffs) ≡ new_part diffs
unfolding text_with chunks_of map_diff_op new_part
chunks_of-new [] = refl
chunks_of-new ((diff_insert, []) ∷ diffs) = chunks_of-new diffs
chunks_of-new ((diff_insert, c ∷ t) ∷ diffs) = ap (λ r. (c ∷ t) ++ r) (chunks_of-new diffs)
chunks_of-new ((diff_delete, []) ∷ diffs) = chunks_of-new diffs
chunks_of-new ((diff_delete, c ∷ t) ∷ diffs) = chunks_of-new diffs
chunks_of-new ((diff_equal, []) ∷ diffs) = chunks_of-new diffs
chunks_of-new ((diff_equal, c ∷ t) ∷ diffs) = ap (λ r. (c ∷ t) ++ r) (chunks_of-new diffs)

chunks_of-solid :
    (diffs : List (DiffType × Text)) → All (λ (c : Chunk). c.content ≢ []) (chunks_of diffs)
unfolding chunks_of
chunks_of-solid [] = tt
chunks_of-solid ((op, []) ∷ diffs) = chunks_of-solid diffs
chunks_of-solid ((op, c ∷ t) ∷ diffs) = ((λ e. cc), chunks_of-solid diffs)

module _ (git : GoGit) (lib : DiffLibrary git) where
  -- The documented behaviour of `diff.Do`: its parts make up the two texts.
  pub record SplitsTexts : Type 0 where
    pub old_is : (a b : Text) → old_part (lib.line_diff a b) ≡ a
    pub new_is : (a b : Text) → new_part (lib.line_diff a b) ≡ b

  -- Where `diff.Do` is as documented, the chunks of a patch between two texts, taken without those
  -- that are added, are the old text, and without those that are deleted the new one; none is empty.
  pub build_file_patch-texts :
      (name : Text) (fresh gone : Bool) (from to : Side git lib)
      → SplitsTexts
      → from.binary || to.binary ≡ false
      → (text_with is_old (build_file_patch git lib name fresh gone from to).chunks ≡ from.content)
        × (text_with is_current (build_file_patch git lib name fresh gone from to).chunks
            ≡ to.content)
        × All
            (λ (c : Chunk). c.content ≢ [])
            (build_file_patch git lib name fresh gone from to).chunks
  unfolding build_file_patch build_chunks
  build_file_patch-texts name fresh gone from to doc h = rw h (
    chunks_of-old (lib.line_diff from.content to.content) ∙ doc.old_is from.content to.content,
    chunks_of-new (lib.line_diff from.content to.content) ∙ doc.new_is from.content to.content,
    chunks_of-solid (lib.line_diff from.content to.content),
  )
