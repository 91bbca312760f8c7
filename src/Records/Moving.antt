-- ===== src/Records/Moving.antt =====
-- The entries of a disk, before and after folders are made and one is moved.
use panamacompra_collector_b.Prelude.{
  ◌+◌, ◌<◌, ◌≡◌, refl, sym, ap, ◌∙◌, ◌≢◌, ◌↔◌, inl, inr, true, false, none, some, [], ◌∷◌, ◌++◌,
  arith, Bool-cases, Option-cases, some_inj, length, append_assoc, length-snoc, length-append,
  All-append, All, Text, ◌==◌, ==_refl, ==_iff,
}
use mathlib.Core.Path.{subst}
use panamacompra_collector_b.Records.{
  Parts, FileEntry, FileTree, same_path, path_within, entry_at, exists, read_text, write_text,
  folder_entry, make_dirs, moved_path, move_folder,
}

abbrev name_or_none : Parts → Text
name_or_none [] = []
name_or_none (a ∷ p) = a

abbrev tail_of : Parts → Parts
tail_of [] = []
tail_of (a ∷ p) = p

pub same_path_iff : (p q : Parts) → (same_path p q ≡ true) ↔ (p ≡ q)
unfolding same_path
same_path_iff [] [] = (λ h. refl, λ h. refl)
same_path_iff [] (b ∷ q) = (λ h. absurd (cc h), λ h. absurd (cc h))
same_path_iff (a ∷ p) [] = (λ h. absurd (cc h), λ h. absurd (cc h))
same_path_iff (a ∷ p) (b ∷ q) = (
  λ h.
      let head : (a == b) ≡ true = ground arith in
      let tail : same_path p q ≡ true = ground arith in
      let first = (==_iff a b).0 head in
      let others = (same_path_iff p q).0 tail in ap (λ x. x ∷ p) first ∙ ap (λ t. b ∷ t) others,
  λ h.
      let first = (==_iff a b).1 (ap name_or_none h) in
      let others = (same_path_iff p q).1 (ap tail_of h) in ground arith,
)

pub path_within-append : (folder rest : Parts) → path_within folder (folder ++ rest) ≡ some rest
unfolding path_within
path_within-append [] rest = refl
path_within-append (a ∷ folder) rest = rw (==_refl a, path_within) (path_within-append folder rest)

pub path_within-cons :
    (a b : Text) (folder path rest : Parts)
    → path_within (a ∷ folder) (b ∷ path) ≡ some rest
    → (a ≡ b) × (path_within folder path ≡ some rest)
unfolding path_within
path_within-cons a b folder path rest h = elim (Bool-cases (a == b)) [
  | inl e ↦ ((==_iff a b).0 e, rw (e, path_within) at h)
  | inr e ↦ absurd (cc (rw (e, path_within) at h))
]

-- A path in a folder is the folder's path before the rest.
pub append-path_within :
    (folder path rest : Parts) → path_within folder path ≡ some rest → path ≡ folder ++ rest
unfolding path_within
append-path_within [] path rest h = some_inj h
append-path_within (a ∷ folder) [] rest h = absurd (cc h)
append-path_within (a ∷ folder) (b ∷ path) rest h =
    let (same, inner) = path_within-cons a b folder path rest h in
    ap (λ x. x ∷ path) (sym same) ∙ ap (λ t. a ∷ t) (append-path_within folder path rest inner)

pub append_cancel : (folder p q : Parts) → folder ++ p ≡ folder ++ q → p ≡ q
append_cancel folder p q h =
    some_inj
      (sym (path_within-append folder p) ∙ ap (path_within folder) h ∙ path_within-append folder q)

-- Every folder before an entry's path is on the disk.
abbrev pub HasParents : FileTree → Parts → Parts → Type 0
HasParents disk before [] = Unit
HasParents disk before (a ∷ path) =
    (exists (before ++ a ∷ []) disk ≡ true) × HasParents disk (before ++ a ∷ []) path

abbrev pub IsTree : FileTree → Type 0
IsTree disk = All (λ (e : FileEntry). HasParents disk [] e.path) disk

abbrev pub NoneUnder : Parts → FileTree → Type 0
NoneUnder folder disk = All (λ (e : FileEntry). path_within folder e.path ≡ none) disk

pub HasParents-exists :
    (disk : FileTree) (before folder path rest : Parts) (a : Text)
    → HasParents disk before path
    → path_within (a ∷ folder) path ≡ some rest
    → exists (before ++ a ∷ folder) disk ≡ true
unfolding path_within
HasParents-exists disk before folder [] rest a h path_within = absurd (cc path_within)
HasParents-exists disk before [] (b ∷ path) rest a h path_within =
    let (same, inner) = path_within-cons a b [] path rest path_within in
    subst (λ x. exists (before ++ x ∷ []) disk ≡ true) (sym same) h.0
HasParents-exists disk before (f ∷ folder) (b ∷ path) rest a h path_within =
    let (same, inner) = path_within-cons a b (f ∷ folder) path rest path_within in
    subst (λ x. exists (before ++ x ∷ f ∷ folder) disk ≡ true) (sym same)
      (subst (λ p. exists p disk ≡ true) (append_assoc before (b ∷ []) (f ∷ folder))
        (HasParents-exists disk (before ++ b ∷ []) folder path rest f h.1 inner))

pub tree-NoneUnder :
    (disk : FileTree) (a : Text) (folder : Parts) (entries : FileTree)
    → exists (a ∷ folder) disk ≡ false
    → All (λ (e : FileEntry). HasParents disk [] e.path) entries
    → NoneUnder (a ∷ folder) entries
tree-NoneUnder disk a folder [] absent h = tt
tree-NoneUnder disk a folder (e ∷ entries) absent h =
    let none_ : path_within (a ∷ folder) e.path ≡ none =
      elim (Option-cases (path_within (a ∷ folder) e.path)) [
        | inl n ↦ n
        | inr (rest, s) ↦
            absurd (cc (sym absent ∙ HasParents-exists disk [] folder e.path rest a h.0 s))
      ] in
    (none_, tree-NoneUnder disk a folder entries absent h.1)

-- A disk to which entries are added still has those of before.
entry_at-append :
    (p : Parts) (disk more : FileTree) (e : FileEntry)
    → entry_at p disk ≡ some e
    → entry_at p (disk ++ more) ≡ some e
unfolding entry_at
entry_at-append p [] more e h = absurd (cc h)
entry_at-append p (x ∷ disk) more e h = elim (Bool-cases (same_path x.path p)) [
  | inl s ↦ rw (s, entry_at) (rw (s, entry_at) at h)
  | inr s ↦ rw (s, entry_at) (entry_at-append p disk more e (rw (s, entry_at) at h))
]

pub entry_at-make_dirs :
    (p before q : Parts) (disk : FileTree) (e : FileEntry)
    → entry_at p disk ≡ some e
    → entry_at p (make_dirs before q disk) ≡ some e
unfolding make_dirs
entry_at-make_dirs p before [] disk e h = h
entry_at-make_dirs p before (a ∷ q) disk e h = elim (Bool-cases (exists (before ++ a ∷ []) disk)) [
  | inl s ↦ rw s (entry_at-make_dirs p (before ++ a ∷ []) q disk e h)
  | inr s ↦ rw s (
      entry_at-make_dirs p (before ++ a ∷ []) q (disk ++ folder_entry (before ++ a ∷ []) ∷ []) e
        (entry_at-append p disk (folder_entry (before ++ a ∷ []) ∷ []) e h))
]

pub too_short : (folder path : Parts) → length path < length folder → path_within folder path ≡ none
too_short folder path h = elim (Option-cases (path_within folder path)) [
  | inl n ↦ n
  | inr (rest, s) ↦
      let whole = ap length (append-path_within folder path rest s) in
      let sum = length-append folder rest in absurd (omega arith)
]

pub make_dirs-NoneUnder :
    (folder before q : Parts) (disk : FileTree)
    → length before + length q < length folder
    → NoneUnder folder disk
    → NoneUnder folder (make_dirs before q disk)
unfolding make_dirs
make_dirs-NoneUnder folder before [] disk short h = h
make_dirs-NoneUnder folder before (a ∷ q) disk short h =
    let longer = length-snoc before a in
    elim (Bool-cases (exists (before ++ a ∷ []) disk)) [
      | inl s ↦ rw s (make_dirs-NoneUnder folder (before ++ a ∷ []) q disk (omega arith) h)
      | inr s ↦ rw s (
          make_dirs-NoneUnder folder (before ++ a ∷ []) q _ (omega arith) (
            All-append (λ (e : FileEntry). path_within folder e.path ≡ none) disk _ h
              (too_short folder (before ++ a ∷ []) (omega arith), tt)))
    ]

-- Moving a folder to a path under which there is nothing.
module _ (current target : Parts) where
  abbrev pub path_moved : Parts → Parts
  path_moved path = moved_path target path (path_within current path)

  pub moved_under :
      (path rest : Parts) → path_within current path ≡ some rest → path_moved path ≡ target ++ rest
  moved_under path rest h = rw h refl

  pub moved_beside : (path : Parts) → path_within current path ≡ none → path_moved path ≡ path
  moved_beside path h = rw h refl

  apart : (p q rest : Parts) → path_within target q ≡ none → target ++ rest ≡ q → p ≡ q
  apart p q rest h e =
      absurd (cc (sym (path_within-append target rest) ∙ ap (path_within target) e ∙ h))

  moved_inj :
      (p q : Parts)
      → path_within target p ≡ none
      → path_within target q ≡ none
      → path_moved p ≡ path_moved q
      → p ≡ q
  moved_inj p q hp hq h = elim (Option-cases (path_within current p)) [
    | inl np ↦ elim (Option-cases (path_within current q)) [
      | inl nq ↦ sym (moved_beside p np) ∙ h ∙ moved_beside q nq
      | inr (r, sq) ↦ sym (apart q p r hp (sym (moved_under q r sq) ∙ sym h ∙ moved_beside p np))
    ]
    | inr (r, sp) ↦ elim (Option-cases (path_within current q)) [
      | inl nq ↦ apart p q r hq (sym (moved_under p r sp) ∙ h ∙ moved_beside q nq)
      | inr (t, sq) ↦
          let rests =
            append_cancel target r t (sym (moved_under p r sp) ∙ h ∙ moved_under q t sq) in
          append-path_within current p r sp
          ∙ ap (λ x. current ++ x) rests
          ∙ sym (append-path_within current q t sq)
    ]
  ]

  pub read_text-move_folder :
      (p : Parts) (disk : FileTree)
      → NoneUnder target disk
      → path_within target p ≡ none
      → read_text (path_moved p) (move_folder current target disk) ≡ read_text p disk
  unfolding read_text entry_at move_folder
  read_text-move_folder p [] free h = refl
  read_text-move_folder p (e ∷ disk) free h = elim (Bool-cases (same_path e.path p)) [
    | inl s ↦
        let there =
          (same_path_iff (path_moved e.path) (path_moved p)).1
            (ap path_moved ((same_path_iff e.path p).0 s)) in
        rw (s, there, entry_at) refl
    | inr s ↦ elim (Bool-cases (same_path (path_moved e.path) (path_moved p))) [
      | inl t ↦
          let same =
            moved_inj e.path p free.0 h ((same_path_iff (path_moved e.path) (path_moved p)).0 t) in
          absurd (cc (sym ((same_path_iff e.path p).1 same) ∙ s))
      | inr t ↦ rw (s, t, entry_at) (read_text-move_folder p disk free.1 h)
    ]
  ]

pub read_text-write_text :
    (p q : Parts) (text : Text) (disk : FileTree)
    → p ≢ q
    → read_text p (write_text q text disk) ≡ read_text p disk
unfolding read_text entry_at write_text
read_text-write_text p q text [] other = refl
read_text-write_text p q text (e ∷ disk) other = elim (Bool-cases (same_path e.path q)) [
  | inl s ↦ elim (Bool-cases (same_path e.path p)) [
    | inl t ↦ absurd (other (sym ((same_path_iff e.path p).0 t) ∙ (same_path_iff e.path q).0 s))
    | inr t ↦ rw (s, write_text, t, entry_at) refl
  ]
  | inr s ↦ elim (Bool-cases (same_path e.path p)) [
    | inl t ↦ rw (s, write_text, t, entry_at) refl
    | inr t ↦ rw (s, write_text, t, entry_at) (read_text-write_text p q text disk other)
  ]
]
