-- ===== src/Parser/Doc.antt =====
-- internal/pkg/parser/parser.go, parseDoc: the lines `//ar:…` before an entity describe its server, its
-- space and its backends. The callers give the node names Fields and ProcFields only, so that the test
-- of the node name is left out.
pub mod Server
use activerecord.Prelude.{
  ℕ, List, [], ◌∷◌, ◌++◌, Option, none, some, Bool, true, false, ◌==◌, if◌then◌else◌, ℤ, pos,
}
use activerecord.Go.{Result, ok, err, panic, Bytes, ◌>>=◌, ◌>>◌, fail_if}
use activerecord.Go.Strings.{codes, same_bytes, is_empty, split_on, strip_prefix}
use activerecord.Go.Numbers.{parse_int}
use activerecord.Package.Records.{NamespaceDeclaration, ServerDeclaration, RecordPackage}
use activerecord.Parser.{ParseError, unknown, doc_empty, doc_timeout, doc_namespace}
use activerecord.Parser.Tags.{Param, value, split_param}

-- One parameter. Keys but the unknown ones need a value.
unfoldable pub doc_param : RecordPackage → Param → Result ParseError RecordPackage
doc_param dst kv =
    if same_bytes kv.0 (codes "serverConf")
    then (do v ← value kv; ok (record dst { server = record (dst.server) { conf = v } }))
    else if same_bytes kv.0 (codes "serverHost")
    then (do v ← value kv; ok (record dst { server = record (dst.server) { host = v } }))
    else if same_bytes kv.0 (codes "serverPort")
    then (do v ← value kv; ok (record dst { server = record (dst.server) { port = v } }))
    else if same_bytes kv.0 (codes "serverTimeout")
    then (do
      v ← value kv
      elim (parse_int v) [
        | none ↦ err doc_timeout
        | some n ↦ ok (record dst { server = record (dst.server) { timeout = n } })
      ])
    else if same_bytes kv.0 (codes "namespace")
    then (do
      v ← value kv
      fail_if (is_empty v) doc_namespace
      ok (record dst { namespace = record (dst.namespace) { object_name = v } }))
    else if same_bytes kv.0 (codes "backend")
    then (do v ← value kv; ok (record dst { backends = split_on b',' v }))
    else err unknown

unfoldable pub doc_params : RecordPackage → List Param → Result ParseError RecordPackage
doc_params dst [] = ok dst
doc_params dst (kv ∷ kvs) = do dst' ← doc_param dst kv; doc_params dst' kvs

-- A comment without the prefix is passed over.
unfoldable pub doc_line : RecordPackage → Bytes → Result ParseError RecordPackage
doc_line dst text = elim (strip_prefix (codes "//ar:") text) [
  | none ↦ ok dst
  | some params ↦ (do kvs ← split_param params []; doc_params dst kvs)
]

unfoldable pub doc_lines : RecordPackage → List Bytes → Result ParseError RecordPackage
doc_lines dst [] = ok dst
doc_lines dst (text ∷ texts) = do dst' ← doc_line dst text; doc_lines dst' texts

unfoldable pub parse_doc : RecordPackage → Option (List Bytes) → Result ParseError RecordPackage
parse_doc dst none = err doc_empty
parse_doc dst (some texts) = doc_lines dst texts
