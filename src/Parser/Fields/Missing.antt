-- ===== src/Parser/Fields/Missing.antt =====
-- Tags of a field without a value: the error message of the default branch reads `kv[1]`, too.
use activerecord.Prelude.{List, [], ◌∷◌, ◌++◌, none, false, ◌≡◌, refl, arith}
use activerecord.Go.{ok, panic, Bytes, bind_ok}
use activerecord.Go.Strings.{among}
use activerecord.Parser.Tags.{Param}
use activerecord.Parser.Fields.{FieldAndIndex, field_tag, field_tags, plain_tags}

one_tag_missing :
    (fi : FieldAndIndex) (key : Bytes)
    → among key plain_tags ≡ false
    → field_tag fi (key, none) ≡ panic
unfolding field_tag
one_tag_missing fi key h = ground arith

-- The tags of a field are read in order; when those before it are accepted, a tag other than
-- primary_key and unique that has no value ends the parser by a panic, whether the tag is known or not
-- and whatever follows.
pub field_tags_missing :
    (before : List Param) (key : Bytes) (behind : List Param) (fi fi' : FieldAndIndex)
    → field_tags fi before ≡ ok fi'
    → among key plain_tags ≡ false
    → field_tags fi (before ++ ((key, none) ∷ behind)) ≡ panic
unfolding field_tags
field_tags_missing [] key behind fi fi' h k = rw (one_tag_missing fi key k) refl
field_tags_missing (kv ∷ kvs) key behind fi fi' h k =
    let (f, e, e') = bind_ok (field_tag fi kv) (λ f. field_tags f kvs) h in
    rw e (field_tags_missing kvs key behind f fi' e' k)
