-- ===== src/Web/Identity.antt =====
-- buildmeta.go: the identity of a build, from what the linker injected.
use plv.Prelude.{if◌then◌else◌, ◌∷◌, ◌++◌, []}
use plv.Go.Text.{Text, lit, text_eq, is_empty}

pub record Build : Type 0 where
  pub git_sha : Text
  pub release_build : Text

abbrev pub app_version : Text
app_version = lit "1.0.2"

abbrev pub repo_homepage : Text
repo_homepage = lit "https://github.com/ngn-au/plv"

pub data BuildKind : Type 0 where
  release commit dev : BuildKind

unfoldable pub build_kind : Build → BuildKind
build_kind b =
    if text_eq b.release_build (lit "true")
    then BuildKind.release
    else if is_empty b.git_sha
    then BuildKind.dev
    else BuildKind.commit

-- The string of a kind.
unfoldable pub kind_name : BuildKind → Text
kind_name release = lit "release"
kind_name commit = lit "commit"
kind_name dev = lit "dev"

unfoldable pub version_label : Build → Text
version_label b = elim (build_kind b) [
  | release ↦ app_version
  | commit ↦ app_version ++ (lit "+" ++ b.git_sha)
  | dev ↦ app_version ++ lit "-dev"
]

unfoldable pub version : Build → Text
version b = lit "v" ++ version_label b

unfoldable pub source_url : Build → Text
source_url b = elim (build_kind b) [
  | release ↦ repo_homepage ++ (lit "/releases/tag/v" ++ app_version)
  | commit ↦ repo_homepage ++ (lit "/commit/" ++ b.git_sha)
  | dev ↦ repo_homepage ++ lit "/tree/main"
]

unfoldable pub docs_url : Build → Text
docs_url b = elim (build_kind b) [
  | release ↦ repo_homepage ++ (lit "/tree/v" ++ (app_version ++ lit "/docs"))
  | commit ↦ repo_homepage ++ (lit "/tree/" ++ (b.git_sha ++ lit "/docs"))
  | dev ↦ repo_homepage ++ lit "/tree/main/docs"
]

-- A dash between spaces, in UTF-8.
abbrev dash : Text
dash = b' ' ∷ 0xE2 ∷ 0x80 ∷ 0x94 ∷ b' ' ∷ []

unfoldable pub source_title : Build → Text
source_title b =
    let tail : Text = elim (build_kind b) [
      | release ↦ lit "view this release on GitHub"
      | commit ↦ lit "view this commit on GitHub"
      | dev ↦ lit "local build, view the main branch on GitHub"
    ] in
    lit "PLV v" ++ (version_label b ++ (dash ++ tail))
