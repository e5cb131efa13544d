-- ===== src/Machine.antt =====
-- What the program asks of the machine it runs on, and the git calls of dtu/control.go and
-- dtu/git.go that read its answers. A machine is what the commands would answer at one moment: a
-- handler that calls git before and after a change takes a machine for each.
use merger_herder_validation.Prelude.{
  ℕ, Bool, true, false, ◌||◌, Option, none, some, List, [], ◌∷◌, String, ◌==◌, string_key,
  if◌then◌else◌,
}
use merger_herder_validation.Text.{Unicode, ◌+++◌, join, split, fields, trim_space}
use merger_herder_validation.Dict.{Dict, empty, put}
use merger_herder_validation.World.{RsaPublicKey}

-- A command's output, and its error where it does not exit with 0 or does not start.
pub data CommandResult : Type 0 where
  exited : String → CommandResult
  failed : String → String → CommandResult

-- exec.Command: a working directory and the command line; exec.LookPath; and the errors of
-- os.RemoveAll, os.MkdirAll and os.WriteFile.
pub record Machine : Type 0 where
  pub run : String → List String → CommandResult
  pub look_path : String → Option String
  pub remove_all : String → Option String
  pub make_dir : String → Option String
  pub write_file : String → String → Option String

-- What x509.ParsePKIXPublicKey finds.
pub data PublicKey : Type 0 where
  rsa : RsaPublicKey → PublicKey
  other : PublicKey

-- The packages encoding/pem, crypto/x509, time and encoding/json (of a list of strings), and the tables of package unicode.
pub record Platform : Type 0 where
  pub unicode : Unicode
  pub pem_decode : String → Option String
  pub parse_public_key : String → Option PublicKey
  pub parse_duration : String → Option ℕ
  pub parse_strings : String → Option (List String)

-- runGit: the error's text, or none.
unfoldable pub run_git : Machine → String → List String → Option String
unfolding trim_space join
run_git m dir arguments = elim (m.run dir ("git" ∷ arguments)) [
  | exited output ↦ none
  | failed output error ↦
      some ("git " +++ (join arguments " " +++ (": " +++ (error +++ (": " +++ trim_space output)))))
]

-- resolveRef: the commit of a branch, or "".
unfoldable pub resolve_ref : Machine → String → String → String
unfolding trim_space
resolve_ref m git_dir ref =
    elim (m.run "" (
      "git"
      ∷ "--git-dir"
      ∷ git_dir
      ∷ "rev-parse"
      ∷ "--verify"
      ∷ ("refs/heads/" +++ (ref +++ "^{commit}"))
      ∷ [])) [ exited output ↦ trim_space output | failed output error ↦ "" ]

-- One line of for-each-ref; a line that has not two fields is passed over.
add_ref : List String → Dict String String → Dict String String
add_ref (name ∷ sha ∷ []) refs = put refs name sha
add_ref _ refs = refs

-- The loop over the lines.
read_refs : List String → Dict String String → Dict String String
unfolding add_ref fields
read_refs [] refs = refs
read_refs (line ∷ lines) refs = read_refs lines (add_ref (fields line) refs)

-- branchRefs: the commits of the branches, or git's error.
pub data RefsRead : Type 0 where
  read : Dict String String → RefsRead
  unread : String → RefsRead

unfoldable pub branch_refs : Machine → String → RefsRead
unfolding read_refs split trim_space
branch_refs m git_dir =
    elim (m.run "" (
      "git" ∷ "--git-dir" ∷ git_dir ∷ "for-each-ref" ∷ "--format=%(refname:strip=2) %(objectname)"
      ∷ "refs/heads" ∷ [])) [
        | exited output ↦ read (read_refs (split "\n" (trim_space output)) empty)
        | failed output error ↦ unread error
      ]

-- forcedUpdate: the old commit is no ancestor of the new one.
unfoldable pub forced_update : Machine → String → String → String → Bool
forced_update m git_dir before_sha after_sha =
    if before_sha == "" || after_sha == ""
    then false
    else elim (m.run "" (
        "git" ∷ "--git-dir" ∷ git_dir ∷ "merge-base" ∷ "--is-ancestor" ∷ before_sha ∷ after_sha
        ∷ [])) [ exited output ↦ false | failed output error ↦ true ]
