-- ===== src/Parser/Doc/Server.antt =====
-- What the description of a server can change.
use activerecord.Prelude.{List, [], ◌∷◌, some, ◌≡◌, ap, ◌∙◌, inl, inr, Option-cases, arith}
use activerecord.Go.{ok, Bytes, bind_ok, ok_same}
use activerecord.Go.Strings.{codes, strip_prefix}
use activerecord.Package.Records.{RecordPackage}
use activerecord.Parser.Tags.{Param, split_param}
use activerecord.Parser.Doc.{doc_param, doc_params, doc_line, doc_lines, parse_doc}

-- The two packages have the same declarations and names.
pub record SameDeclarations (a b : RecordPackage) : Type 0 where
  pub fields_lem : a.fields ≡ b.fields
  pub indexes_lem : a.indexes ≡ b.indexes
  pub public_lem : a.namespace.public_name ≡ b.namespace.public_name
  pub package_lem : a.namespace.package_name ≡ b.namespace.package_name

same_of : (a b : RecordPackage) → a ≡ b → SameDeclarations a b
same_of a b e = record {
  fields_lem = ap (λ (c : RecordPackage). c.fields) e;
  indexes_lem = ap (λ (c : RecordPackage). c.indexes) e;
  public_lem = ap (λ (c : RecordPackage). c.namespace.public_name) e;
  package_lem = ap (λ (c : RecordPackage). c.namespace.package_name) e;
}

doc_param_same :
    (dst dst' : RecordPackage) (kv : Param) → doc_param dst kv ≡ ok dst' → SameDeclarations dst dst'
unfolding doc_param
doc_param_same dst dst' kv h = record {
  fields_lem = ground arith;
  indexes_lem = ground arith;
  public_lem = ground arith;
  package_lem = ground arith;
}

same_trans :
    {a b c : RecordPackage} → SameDeclarations a b → SameDeclarations b c → SameDeclarations a c
same_trans s t = record {
  fields_lem = s.fields_lem ∙ t.fields_lem;
  indexes_lem = s.indexes_lem ∙ t.indexes_lem;
  public_lem = s.public_lem ∙ t.public_lem;
  package_lem = s.package_lem ∙ t.package_lem;
}

doc_params_same :
    (kvs : List Param) (dst dst' : RecordPackage)
    → doc_params dst kvs ≡ ok dst'
    → SameDeclarations dst dst'
unfolding doc_params
doc_params_same [] dst dst' h = same_of dst dst' (ok_same h)
doc_params_same (kv ∷ kvs) dst dst' h =
    let (d, e, e') = bind_ok (doc_param dst kv) (λ d. doc_params d kvs) h in
    same_trans (doc_param_same dst d kv e) (doc_params_same kvs d dst' e')

doc_line_same :
    (text : Bytes) (dst dst' : RecordPackage)
    → doc_line dst text ≡ ok dst'
    → SameDeclarations dst dst'
unfolding doc_line
doc_line_same text dst dst' h = elim (Option-cases (strip_prefix (codes "//ar:") text)) [
  | inl e ↦ same_of dst dst' (ok_same (rw (e, doc_line) at h))
  | inr (params, e) ↦
      let h' = rw (e, doc_line) at h in
      let (kvs, k, k') = bind_ok (split_param params []) (doc_params dst) h' in
      doc_params_same kvs dst dst' k'
]

-- A description of a server that is accepted changes no field, no index and no name of the package.
pub parse_doc_lem :
    (texts : List Bytes) (dst dst' : RecordPackage)
    → parse_doc dst (some texts) ≡ ok dst'
    → SameDeclarations dst dst'
unfolding parse_doc doc_lines
parse_doc_lem [] dst dst' h = same_of dst dst' (ok_same h)
parse_doc_lem (text ∷ texts) dst dst' h =
    let (d, e, e') = bind_ok (doc_line dst text) (λ d. doc_lines d texts) h in
    same_trans (doc_line_same text dst d e) (parse_doc_lem texts d dst' e')
