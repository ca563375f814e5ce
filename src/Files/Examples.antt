-- ===== src/Files/Examples.antt =====
-- Runs of the file operations against a daemon that takes every command.
use dockpal_agent.Base.{List, [], ◌∷◌, ◌++◌, ◌≡◌, ◌⊎◌, refl, Result, ok, some, All, true, false}
use dockpal_agent.Base.Bytes.{Bytes, codes, contains}
use dockpal_agent.FilePath.{render}
use dockpal_agent.FilePath.Clean.{IsPlain}
use dockpal_agent.Files.{
  Ask, Daemon, validate_path, delete_file, write_file, parse_listing, FileInfo, base64, escape,
  write_script,
}
use dockpal_agent.Files.Paths.{validate_path-IsPlain}
use dockpal_agent.Files.Quote.{shell_tokens}
use dockpal_agent.Files.Deletion.{Started, Removable, delete_file-Removable}
use dockpal_agent.Files.Writing.{decode_into, write_file-Started}

abbrev daemon : Daemon
daemon log a = ok (codes "e1")

validated : validate_path (codes "/srv//a/../b/") ≡ ok (codes "/srv/b")
unfolding validate_path dockpal_agent.Files.has_control dockpal_agent.Base.Bytes.has_prefix
    dockpal_agent.FilePath.clean dockpal_agent.Base.Bytes.equal contains
    dockpal_agent.Base.Bytes.join dockpal_agent.FilePath.parts dockpal_agent.FilePath.clean_onto
    dockpal_agent.Base.Bytes.split dockpal_agent.FilePath.clean_step dockpal_agent.FilePath.parent
validated = refl

validate_path-IsPlain_example :
    (ws : List Bytes) × (codes "/srv/b" ≡ render true ws)
    × All IsPlain ws
    × (contains (codes "/srv/b") (codes "..") ≡ false)
    × (validate_path (codes "/srv/b") ≡ ok (codes "/srv/b"))
validate_path-IsPlain_example =
    validate_path-IsPlain (codes "/srv//a/../b/") (codes "/srv/b") validated

delete_file-Removable_example :
    ((delete_file daemon (codes "web") (codes "/etc/../tmp/x") []).1 ≡ [])
    ⊎ ((p : Bytes) × Removable p
        × Started
            (codes "web")
            (codes "rm" ∷ codes "-rf" ∷ p ∷ [])
            []
            (delete_file daemon (codes "web") (codes "/etc/../tmp/x") []).1)
delete_file-Removable_example =
    delete_file-Removable daemon (codes "web") (codes "/etc/../tmp/x") []

write_file-Started_example :
    ((write_file daemon (codes "web") (codes "/tmp/it's") (codes "hi") []).1 ≡ [])
    ⊎ ((p : Bytes) × (script : Bytes) × (validate_path (codes "/tmp/it's") ≡ ok p)
        × (shell_tokens script ≡ some (decode_into (codes "hi") p))
        × Started
            (codes "web")
            (codes "sh" ∷ codes "-c" ∷ script ∷ [])
            []
            (write_file daemon (codes "web") (codes "/tmp/it's") (codes "hi") []).1)
write_file-Started_example =
    write_file-Started daemon (codes "web") (codes "/tmp/it's") (codes "hi") []

encoded : base64 (codes "hello!?") ≡ codes "aGVsbG8hPw=="
unfolding base64 dockpal_agent.Files.base64_char
encoded = refl

listed :
    parse_listing (
      codes
        "total 4\ndrwxr-xr-x 2 root root 4096 Jan 1 00:00 .\n-rw-r--r-- 1 root root 12 Jan 1 00:00 a.txt\n")
    ≡ record { name = codes "a.txt"; size = codes "12"; is_dir = false } ∷ []
unfolding parse_listing dockpal_agent.Files.file_lines dockpal_agent.Base.Bytes.split
    dockpal_agent.Files.file_line dockpal_agent.Files.fields dockpal_agent.Base.Bytes.equal
listed = refl
