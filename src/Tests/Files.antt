-- ===== src/Tests/Files.antt =====
-- Parameters, attributes of files, and queries of them.
use mathlib.Core.List.{reverse}
use aaaos_renovation_agent_o.FileIndex.RoundTrip.{query_text, query_parse-query_text}
use aaaos_renovation_agent_o.Prelude.{
  ℕ, ◌≡◌, ◌≢◌, refl, subst, true, false, Option, none, some, List, [], ◌∷◌, arith, take,
  if◌then◌else◌, inl, inr,
}
use aaaos_renovation_agent_o.Tests.{leader, worker, teams}
use aaaos_renovation_agent_o.Text.{codes}
use aaaos_renovation_agent_o.Params.{streq, after_key, field, param_from, param_value}
use aaaos_renovation_agent_o.Params.RoundTrip.{print}
use aaaos_renovation_agent_o.Files.{
  Attr, Inode, set_file_attr, del_file_attr, del_on, del_attr, get_attr, is_regular, tool_resp_set,
  tool_ok,
}
use aaaos_renovation_agent_o.Files.Attrs.{WellFormed}
use aaaos_renovation_agent_o.Files.Handlers.{
  Names, set_file_attr-get_file_attr, del_file_attr-get_file_attr,
}
use aaaos_renovation_agent_o.Files.Valid.{attr_handlers-WellFormed}
use aaaos_renovation_agent_o.FileIndex.Query.{
  Query, index_plan, scan_plan, query_parse, parse_fields, skip_semis, read_while, read_field,
  add_field,
}
use aaaos_renovation_agent_o.FileIndex.Walk.{
  Node, file, directory, missing, last, dirent, index_build,
}
use aaaos_renovation_agent_o.FileIndex.Walk.Kept.{index_build-scan_plan}
use aaaos_renovation_agent_o.QueryCache.{
  Shared, cache_lookup, cache_store, touch, new_entry, version_bump, access_allowed, public_share,
  param_is, find_hit, is_hit,
}
use aaaos_renovation_agent_o.QueryCache.Store.{cache_store-cache_lookup, cache_lookup-access}
use aaaos_renovation_agent_o.QueryCache.Fresh.{
  boot_cache, boot, store, Op, looks, stores, bumps, run, version_bump-cache_lookup,
}
use aaaos_renovation_agent_o.QueryCache.Answer.{Files, query_file, result_with_cache}
use aaaos_renovation_agent_o.QueryCache.Repeat.{stored_text, query_file_twice}

abbrev fields : List (List ℕ × List ℕ)
fields = (codes "path", codes "a") ∷ (codes "key", codes "tag") ∷ (codes "value", codes "7") ∷ []

fields-print : print fields ≡ codes "path=a;key=tag;value=7;"
unfolding print
fields-print = refl

abbrev tag : Attr
tag = record { key = codes "tag"; value = codes "1" }

abbrev note : Inode
note = record {
  is_file = true;
  dev = 1;
  inum = 9;
  attrs = tag ∷ [];
  summary = [];
  content = codes "plan";
}

abbrev namei : List ℕ → Option Inode
namei path = if streq path (codes "a") then some note else none

abbrev request : List ℕ
request = codes "path=a;key=tag;value=7;"

names : Names namei request (codes "a") (codes "tag") note
unfolding param_value param_from streq after_key field
names = (refl, refl, refl)

value_of_request : param_value request (codes "value") 16 ≡ some (codes "7")
unfolding param_value param_from after_key field
value_of_request = refl

note-WellFormed : WellFormed note.attrs
note-WellFormed = (omega arith, (tt, tt))

note-tag : get_attr (codes "tag") note.attrs ≢ none
unfolding get_attr streq
note-tag e = absurd (cc)

set_file_attr-get_file_attr_example : (set_file_attr namei request).changed ≡ true
unfolding is_regular
set_file_attr-get_file_attr_example =
    (set_file_attr-get_file_attr namei request (codes "a") (codes "tag") (codes "7") note names
      value_of_request refl (inl (omega arith))).2

del_file_attr-get_file_attr_example : (del_file_attr namei request).changed ≡ true
del_file_attr-get_file_attr_example =
    (del_file_attr-get_file_attr namei request (codes "a") (codes "tag") note names note-WellFormed
      note-tag).2

abbrev untagged : Inode
untagged = record note { attrs = [] }

note_of : (ip : Inode) → some note ≡ some ip → WellFormed ip.attrs
note_of ip e = let d : note ≡ ip = cc in subst (λ (i : Inode). WellFormed i.attrs) d note-WellFormed

attr_handlers-WellFormed_example : WellFormed untagged.attrs
unfolding del_file_attr del_on del_attr param_value param_from streq after_key field
attr_handlers-WellFormed_example =
    attr_handlers-WellFormed (λ path. some note) (codes "path=a;key=tag") untagged
      (λ path ip e. note_of ip e) (inr refl)

abbrev root : Node
root = directory (dirent 9 (codes "a") (file note) (dirent 4 (codes ".") missing last))

abbrev tagged : Query
tagged = record { conds = tag ∷ []; keyword = []; force_scan = false }

index_build-scan_plan_example :
    (index_plan (index_build root).metas (index_build root).index tagged tag).hits
    ≡ reverse (scan_plan (index_build root).metas tagged).hits
index_build-scan_plan_example =
    index_build-scan_plan root tagged tag [] (note-WellFormed, (tt, tt)) refl

abbrev stored : Shared
stored = cache_store boot_cache leader (codes "tag=1") (codes "{}")

stored-hit :
    (cache_lookup stored worker (codes "tag=1")).0
    ≡ some (touch (new_entry 1 leader (codes "tag=1") (codes "{}")))
unfolding access_allowed public_share param_is param_value param_from streq after_key field
stored-hit =
    cache_store-cache_lookup boot_cache leader worker (codes "tag=1") (codes "{}") (omega arith)
      refl refl

cache_lookup-access_example :
    (touch (new_entry 1 leader (codes "tag=1") (codes "{}"))).query ≡ codes "tag=1"
cache_lookup-access_example =
    (cache_lookup-access stored worker (codes "tag=1")
      (touch (new_entry 1 leader (codes "tag=1") (codes "{}"))) stored-hit).0

abbrev later_ops : List Op
later_ops = looks leader (codes "tag=1") ∷ stores worker (codes "tag=2") (codes "{}") ∷ bumps ∷ []

version_bump-cache_lookup_example :
    (cache_lookup (run later_ops (version_bump stored)) worker (codes "tag=1")).0 ≡ none
unfolding cache_store streq
version_bump-cache_lookup_example =
    version_bump-cache_lookup stored later_ops worker (codes "tag=1")
      (store boot_cache leader (codes "tag=1") (codes "{}") boot) (omega arith)
      (tt, (refl, (tt, tt)))

abbrev files : Files
files = record { index = none; shared = boot_cache; workflows = teams }

tagged-parse : query_parse (codes "tag=1") ≡ some tagged
unfolding query_parse parse_fields skip_semis read_field read_while add_field streq
tagged-parse = refl

query_file_twice_example :
    (query_file root true true 2 leader
      (codes "tag=1")
      (query_file root true true 1 leader (codes "tag=1") files).files).response
    ≡ tool_resp_set tool_ok
        (result_with_cache (take 511 (stored_text root 1 tagged files)) 1 3 2 1 0)
unfolding cache_lookup find_hit is_hit
query_file_twice_example =
    query_file_twice root root 1 2 leader (codes "tag=1") files tagged
      (λ e. absurd (omega (arith, e))) (omega arith) refl refl tagged-parse

abbrev asked : Query
asked = record { conds = tag ∷ []; keyword = codes "bug"; force_scan = true }

query_parse-query_text_example : query_parse (query_text asked) ≡ some asked
unfolding streq
query_parse-query_text_example =
    query_parse-query_text asked
      (
        (
          ((refl, (refl, (refl, tt))), omega arith),
          ((refl, tt), omega arith),
          refl,
          refl,
          refl,
          refl,
        ),
        tt,
      )
      (omega arith) ((refl, (refl, (refl, tt))), omega arith)
