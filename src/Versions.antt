-- ===== src/Versions.antt =====
-- app/services/rewrite/service.py: the versions of a novel, one of which is the default, and the
-- version that a rewrite writes to. The rows are those of app/models/novel.py.
-- Two writers at once are a sequence here, so a new version's number does not conflict.

pub mod Counts
pub mod Default
pub mod Activation
use ai_jin_shu.Common.{
  ℕ, suc, max, Bool, true, false, not, ◌&&◌, ◌||◌, Option, none, some, String, List, [], ◌∷◌, ◌++◌,
  map, ltb, ◌==◌, ◌+◌, length, select, or_else, if◌then◌else◌, Result, ok, err, ◌>>=◌,
}
use ai_jin_shu.Common.Table.{find}
use ai_jin_shu.Json.{Json}

pub data VersionError : Type 0 where
  version_not_found multiple_results_found : VersionError

pub record NovelVersion : Type 0 where
  pub id : ℕ
  pub novel_id : ℕ
  pub version_no : ℕ
  pub parent_version_id : Option ℕ
  pub status : String
  pub is_default : Bool

pub record ChapterText : Type 0 where
  pub id : ℕ
  pub novel_version_id : ℕ
  pub chapter_num : ℕ
  pub title : Option String
  pub content : String
  pub summary : Option String
  pub status : Option String
  pub review_score : Option ℕ
  pub language_quality_score : Option ℕ
  pub language_quality_report : Json
  pub metadata : Json
  pub source_chapter_version_id : Option ℕ

pub record Library : Type 0 where
  pub versions : List NovelVersion
  pub next_version : ℕ
  pub chapters : List ChapterText
  pub next_chapter : ℕ

abbrev pub has_version_id : ℕ → NovelVersion → Bool
has_version_id i v = v.id == i

abbrev pub of_book : ℕ → NovelVersion → Bool
of_book n v = v.novel_id == n

abbrev pub default_of : ℕ → NovelVersion → Bool
default_of n v = of_book n v && v.is_default

-- `scalar_one_or_none`: more than one row is an exception.
abbrev pub one_or_none {ℓ} : {A : Type ℓ} → List A → Result VersionError (Option A)
one_or_none [] = ok none
one_or_none (x ∷ []) = ok (some x)
one_or_none (x ∷ y ∷ xs) = err multiple_results_found

abbrev pub with_default : ℕ → NovelVersion → NovelVersion
with_default i v = record v { is_default = v.id == i }

-- `row.is_default = 1 if row.id == version_id else 0` for the rows of a novel.
abbrev pub set_default_row : ℕ → ℕ → NovelVersion → NovelVersion
set_default_row n i v = if of_book n v then with_default i v else v

-- `latest.is_default = 1`
abbrev pub raise_default : ℕ → ℕ → NovelVersion → NovelVersion
raise_default n i v =
    if has_version_id i v && of_book n v then record v { is_default = true } else v

abbrev pub add_version : NovelVersion → Library → Library
add_version v lib = record lib {
  versions = lib.versions ++ v ∷ [];
  next_version = suc lib.next_version;
}

abbrev pub first_version : ℕ → ℕ → NovelVersion
first_version n i = record {
  id = i;
  novel_id = n;
  version_no = 1;
  parent_version_id = none;
  status = "draft";
  is_default = true;
}

-- `ensure_default_version` with the answer of its second query.
abbrev pub with_latest :
    ℕ → Library → Option NovelVersion → Result VersionError (NovelVersion × Library)
with_latest n lib (some v) = ok (
  record v { is_default = true },
  record lib { versions = map (raise_default n v.id) lib.versions },
)
with_latest n lib none = let v = first_version n lib.next_version in ok (v, add_version v lib)

-- `ensure_default_version` with the answer of its first query.
abbrev pub with_existing :
    ℕ → Library → Option NovelVersion → Result VersionError (NovelVersion × Library)
with_existing n lib (some v) = ok (v, lib)
with_existing n lib none = one_or_none (select (of_book n) lib.versions) >>= with_latest n lib

-- `ensure_default_version`. Neither query has a limit, so their order does not matter.
unfoldable pub ensure_default_version : ℕ → Library → Result VersionError (NovelVersion × Library)
ensure_default_version n lib =
    one_or_none (select (default_of n) lib.versions) >>= with_existing n lib

-- The query for a version of a novel by its id, which is the primary key.
abbrev pub version_of : ℕ → ℕ → Library → Option NovelVersion
version_of n i lib = find (λ v. has_version_id i v && of_book n v) lib.versions

-- `get_version_or_default`
unfoldable pub get_version_or_default :
    ℕ → Option ℕ → Library → Result VersionError (NovelVersion × Library)
unfolding ensure_default_version
get_version_or_default n none lib = ensure_default_version n lib
get_version_or_default n (some i) lib = elim (version_of n i lib) [
  | some v ↦ ok (v, lib)
  | none ↦ err version_not_found
]

-- `activate_version`
unfoldable pub activate_version : ℕ → ℕ → Library → Result VersionError (NovelVersion × Library)
activate_version n i lib = elim (version_of n i lib) [
  | none ↦ err version_not_found
  | some v ↦ ok (with_default i v, record lib { versions = map (set_default_row n i) lib.versions })
]

-- `select(func.max(version_no))`, where no row is 0.
abbrev pub max_version_no : ℕ → List NovelVersion → ℕ
max_version_no n [] = 0
max_version_no n (v ∷ vs) =
    let rest = max_version_no n vs in if of_book n v then max v.version_no rest else rest

-- The new row of `create_target_version`.
abbrev pub target_version : ℕ → NovelVersion → Library → NovelVersion
target_version n base lib = record {
  id = lib.next_version;
  novel_id = n;
  version_no = suc (max_version_no n lib.versions);
  parent_version_id = some base.id;
  status = "generating";
  is_default = false;
}

-- A chapter of the base version as the target version takes it over.
abbrev pub inherited : ℕ → ℕ → ChapterText → ChapterText
inherited target i c = record c {
  id = i;
  novel_version_id = target;
  status = some (or_else c.status "completed");
  source_chapter_version_id = some c.id;
}

abbrev pub inherit_all : ℕ → ℕ → List ChapterText → List ChapterText
inherit_all target i [] = []
inherit_all target i (c ∷ cs) = inherited target i c ∷ inherit_all target (suc i) cs

abbrev pub is_inherited : ℕ → ℕ → ChapterText → Bool
is_inherited base from c = (c.novel_version_id == base) && ltb c.chapter_num from

-- `create_target_version`: the version, and the chapters before the first that is rewritten. They
-- are taken in the order of the table, on which only their new ids depend.
unfoldable pub create_target_version : ℕ → NovelVersion → ℕ → Library → NovelVersion × Library
create_target_version n base from lib =
    let target = target_version n base lib in
    let kept = select (is_inherited base.id from) lib.chapters in
    (
      target,
      record (add_version target lib) {
        chapters = lib.chapters ++ inherit_all target.id lib.next_chapter kept;
        next_chapter = lib.next_chapter + length kept;
      },
    )
