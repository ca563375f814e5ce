-- ===== src/Stack/Status.antt =====
-- StatusConvert and GetStackFull of internal/docker/stack_store.go.
use dockpal_agent.Base.{not, List, [], ◌∷◌, Result, ok, err, if◌then◌else◌}
use dockpal_agent.Base.Bytes.{Bytes, codes, equal, has_prefix, contains, to_lower, trim_space}
use dockpal_agent.Stack.World.{World, Outside, ComposeLsEntry}
use dockpal_agent.Stack.Store.{Stack, get_stack, not_found, unknown}

-- the text in lower case and without blanks around it
unfoldable pub convert : Bytes → Bytes
convert s =
    if has_prefix s (codes "created")
    then codes "partial"
    else if contains s (codes "exited")
    then codes "exited"
    else if has_prefix s (codes "running")
    then codes "running"
    else unknown

unfoldable pub status_convert : Bytes → Bytes
status_convert status = convert (to_lower (trim_space status))

-- the loop over the projects, up to the first of the name
unfoldable pub with_project : Bytes → List ComposeLsEntry → Stack → Stack
with_project name [] s = s
with_project name (p ∷ ps) s =
    let rest = with_project name ps s in
    if equal p.name name
    then record s { status = status_convert p.status; status_text = p.status }
    else rest

unfoldable pub with_projects : Bytes → Result (List ComposeLsEntry) → Stack → Stack
with_projects name (err e) s = s
with_projects name (ok ps) s = with_project name ps s

unfoldable pub or_draft : Stack → Stack
or_draft s =
    if equal s.status unknown
    then record s { status = codes "draft"; status_text = codes "draft" }
    else s

-- what GetStackFull makes of a stack that GetStack has found; its services are left out
unfoldable pub complete : Outside → World → Bytes → Stack → Result Stack
complete o w name s =
    if not s.managed
    then err (not_found name)
    else if o.has_cli
    then ok (or_draft (or_draft (with_projects name (o.list_projects w.runs) s)))
    else ok (or_draft s)

unfoldable pub get_stack_full : Outside → World → Bytes → Result Stack
get_stack_full o w name = elim (get_stack o w name) [ err e ↦ err e | ok s ↦ complete o w name s ]
