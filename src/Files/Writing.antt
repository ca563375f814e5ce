-- ===== src/Files/Writing.antt =====
-- What WriteFile asks of the daemon.
use dockpal_agent.Base.{List, [], ◌∷◌, ◌≡◌, ◌⊎◌, refl, ◌∙◌, inl, inr, ok, Result-cases, some}
use dockpal_agent.Base.Bytes.{Bytes, codes}
use dockpal_agent.Files.{
  Ask, Daemon, exec_command, checked, validate_path, write_file, write_script, base64, escape,
  wrapped,
}
use dockpal_agent.Files.Quote.{Token, word, operator, shell_tokens, shell_tokens-write_script}
use dockpal_agent.Files.Deletion.{
  Started, exec_command-Started, checked-validate, done_log, wrapped_log,
}

-- The command line that decodes a content into a path.
abbrev pub decode_into : Bytes → Bytes → List Token
decode_into content p =
    word (codes "printf")
    ∷ word (codes "%s")
    ∷ word (base64 content)
    ∷ operator b'|'
    ∷ word (codes "base64")
    ∷ word (codes "-d")
    ∷ operator b'>'
    ∷ word p
    ∷ []

-- WriteFile either asks nothing of the daemon, or it starts one shell, on a script that the shell
-- reads as the decoding of the content into the one path that ValidatePath has returned.
pub write_file-Started :
    (daemon : Daemon) (id path content : Bytes) (log : List Ask)
    → ((write_file daemon id path content log).1 ≡ log)
      ⊎ ((p : Bytes) × (script : Bytes) × (validate_path path ≡ ok p)
          × (shell_tokens script ≡ some (decode_into content p))
          × Started id
              (codes "sh" ∷ codes "-c" ∷ script ∷ [])
              log
              (write_file daemon id path content log).1)
unfolding write_file
write_file-Started daemon id path content log = elim (Result-cases (checked id path)) [
  | inr (e, h) ↦ inl (rw h refl)
  | inl (p, h) ↦
      let script : Bytes = write_script (base64 content) (escape p) in
      let cmd : List Bytes = codes "sh" ∷ codes "-c" ∷ script ∷ [] in
      let started = exec_command-Started daemon id cmd log in
      inr (
        p,
        script,
        checked-validate id path p h,
        shell_tokens-write_script content p,
        rw h (record {
          rest = started.rest;
          attached = started.attached;
          asked =
              done_log (wrapped _ (exec_command daemon id cmd log))
              ∙ wrapped_log _ (exec_command daemon id cmd log).0 _
              ∙ started.asked;
        }),
      )
]
