-- ===== src/Files.antt =====
-- The attributes of a file: agentfs_tool_set_file_attr, agentfs_tool_get_file_attr and
-- agentfs_tool_del_file_attr of kernel/agent_fs.c. `namei` is the lookup of a path in the file
-- system; an outcome has the inode as the handler leaves it, and whether the handler rebuilt the
-- index, counted the version of the files and signalled the change.
pub mod Attrs
pub mod Kept
pub mod Handlers
pub mod Valid
use mathlib.Core.Option
use aaaos_renovation_agent_o.Prelude.{
  ℕ, ◌+◌, ◌-◌, ◌≤◌, ◌<◌, Bool, true, false, Option, none, some, List, [], ◌∷◌, ◌++◌, map,
  if◌then◌else◌, ltb, take, length, ℤ, pos, negsuc,
}
use aaaos_renovation_agent_o.Text.{codes, put_char, put_string}
use aaaos_renovation_agent_o.Params.{streq, param_value, until_nul}

-- struct inode_attr
pub record Attr : Type 0 where
  pub key : List ℕ
  pub value : List ℕ

-- What of struct inode the handlers use. `is_file` is `type == T_FILE`, and `content` the bytes that
-- readi reads; `attr_count` is the length of `attrs`.
pub record Inode : Type 0 where
  pub is_file : Bool
  pub dev : ℕ
  pub inum : ℕ
  pub attrs : List Attr
  pub summary : List ℕ
  pub content : List ℕ

-- struct agent_tool_response, less the length of the result
pub record Response : Type 0 where
  pub status : ℤ
  pub result : List ℕ

-- `ip->type == T_FILE`
unfoldable pub is_regular : Inode → Bool
is_regular ip = ip.is_file

pub record Outcome : Type 0 where
  pub response : Response
  pub inode : Option Inode
  pub changed : Bool

abbrev pub tool_ok : ℤ
tool_ok = pos 0

abbrev pub err_bad_param : ℤ
err_bad_param = negsuc 1

abbrev pub err_no_space : ℤ
err_no_space = negsuc 3

-- INODE_ATTR_MAX
abbrev pub attr_max : ℕ
attr_max = 4

-- tool_resp_set: the result is cut to AGENT_TOOL_RESULT_MAX less the NUL.
unfoldable pub tool_resp_set : ℤ → List ℕ → Response
tool_resp_set status result = record { status = status; result = take 511 result }

-- safestrcpy into the buffers of an attribute
abbrev pub make_attr : List ℕ → List ℕ → Attr
make_attr key value = record { key = take 7 key; value = take 15 value }

-- The loop of agentfs_tool_set_file_attr: none if `set` stays 0
unfoldable pub store_value : List ℕ → List ℕ → List Attr → Option (List Attr)
store_value key value [] = none
store_value key value (a ∷ as') =
    let stored = record a { value = take 15 value } ∷ as' in
    let rest = Option.map (◌∷◌ a) (store_value key value as') in
    if streq a.key key then some stored else rest

abbrev pub or_append : List ℕ → List ℕ → List Attr → Option (List Attr) → Option (List Attr)
or_append key value attrs (some as') = some as'
or_append key value attrs none =
    if ltb (length attrs) attr_max then some (attrs ++ (make_attr key value ∷ [])) else none

-- The attributes with one stored; none for "too many attrs"
unfoldable pub set_attr : List ℕ → List ℕ → List Attr → Option (List Attr)
set_attr key value attrs = or_append key value attrs (store_value key value attrs)

-- The loop of agentfs_tool_get_file_attr: the value of the first attribute with the key
unfoldable pub get_attr : List ℕ → List Attr → Option (List ℕ)
get_attr key [] = none
get_attr key (a ∷ as') = if streq a.key key then some a.value else get_attr key as'

-- The loop of agentfs_tool_del_file_attr: the attributes behind the deleted one move up.
unfoldable pub del_attr : List ℕ → List Attr → Option (List Attr)
del_attr key [] = none
del_attr key (a ∷ as') =
    let rest = Option.map (◌∷◌ a) (del_attr key as') in if streq a.key key then some as' else rest

-- inode_summary_refresh: the first 63 bytes of the file, which end at a NUL
abbrev pub summary_refresh : Inode → Inode
summary_refresh ip = record ip { summary = until_nul (take 63 ip.content) }

-- A handler that changes nothing
abbrev pub answer : ℤ → List ℕ → Outcome
answer status text = record { response = tool_resp_set status text; inode = none; changed = false }

abbrev pub bad_params : Outcome
bad_params = answer err_bad_param (codes "bad params")

abbrev pub not_found : Outcome
not_found = answer err_bad_param (codes "file not found")

-- The inode is written, the index rebuilt, the version of the files counted and FILEMOD signalled.
abbrev pub write_attrs : Inode → List ℕ → List Attr → Outcome
write_attrs ip text attrs = record {
  response = tool_resp_set tool_ok text;
  inode = some (record ip { attrs = attrs });
  changed = true;
}

-- From the lookup of the path on
unfoldable pub set_on : List ℕ → List ℕ → Option Inode → Outcome
set_on key value none = not_found
set_on key value (some ip) =
    if is_regular ip
    then (elim (set_attr key value ip.attrs) [
      | none ↦ answer err_no_space (codes "too many attrs")
      | some as' ↦ write_attrs (summary_refresh ip) (codes "attr set") as'
    ])
    else answer err_bad_param (codes "not a file")

-- The answer of agentfs_tool_get_file_attr
unfoldable pub attr_text : List ℕ → List ℕ → List ℕ → List ℕ
attr_text path key value =
    let head = put_string 512 (put_string 512 [] (codes "{status=ok,path=")) path in
    let name = put_char 512 (put_string 512 (put_char 512 head b',') key) b'=' in
    put_char 512 (put_string 512 name value) b'}'

unfoldable pub get_on : List ℕ → List ℕ → Option Inode → Outcome
get_on path key none = not_found
get_on path key (some ip) = elim (get_attr key ip.attrs) [
  | none ↦ answer err_bad_param (codes "attr not found")
  | some value ↦ answer tool_ok (attr_text path key value)
]

unfoldable pub del_on : List ℕ → Option Inode → Outcome
del_on key none = not_found
del_on key (some ip) = elim (del_attr key ip.attrs) [
  | none ↦ answer err_bad_param (codes "attr not found")
  | some as' ↦ write_attrs ip (codes "attr deleted") as'
]

module _ (namei : List ℕ → Option Inode) (params : List ℕ) where
  -- agentfs_tool_set_file_attr
  unfoldable pub set_file_attr : Outcome
  set_file_attr = elim (param_value params (codes "path") 64) [
    | none ↦ bad_params
    | some path ↦ elim (param_value params (codes "key") 8) [
      | none ↦ bad_params
      | some key ↦ elim (param_value params (codes "value") 16) [
        | none ↦ bad_params
        | some value ↦ set_on key value (namei path)
      ]
    ]
  ]

  -- agentfs_tool_get_file_attr; `memory` is whether kalloc gives the buffer.
  unfoldable pub get_file_attr : Bool → Outcome
  get_file_attr memory = elim (param_value params (codes "path") 64) [
    | none ↦ bad_params
    | some path ↦ elim (param_value params (codes "key") 8) [
      | none ↦ bad_params
      | some key ↦
          if memory then get_on path key (namei path) else answer err_no_space (codes "no memory")
    ]
  ]

  -- agentfs_tool_del_file_attr
  unfoldable pub del_file_attr : Outcome
  del_file_attr = elim (param_value params (codes "path") 64) [
    | none ↦ bad_params
    | some path ↦ elim (param_value params (codes "key") 8) [
      | none ↦ bad_params
      | some key ↦ del_on key (namei path)
    ]
  ]
