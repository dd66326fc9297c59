-- ===== src/Translate/Resolver/Classes.antt =====
-- What arango_sparql/translate/resolver.py resolves a class to, and what a resolver is made with.
use arango_sparql_py.Base.{Bool, Option, none, List}
use arango_sparql_py.Base.Eq.{nat_eq, list_eq}
use arango_sparql_py.Base.Order.{nat_order, list_order}
use arango_sparql_py.Base.Dict.{Dict}
use arango_sparql_py.Base.Str.{Str, codes}

pub record ResolvedClass : Type 0 where
  pub class_iri : Str
  pub collection : Str
  pub type_field : Option Str
  pub type_value : Option Str
  pub type_field_is_array : Option Bool
  pub style : Option Str
  pub subject_column : Str
  pub predicate_column : Str
  pub object_uri_column : Str
  pub object_value_column : Str
  pub tenant_field : Option Str
  pub tenant_entity : Option Str
  pub shard_family : Option (List Str)

abbrev pub plain_class : Str → Str → ResolvedClass
plain_class k collection = record {
  class_iri = k;
  collection = collection;
  type_field = none;
  type_value = none;
  type_field_is_array = none;
  style = none;
  subject_column = codes "subject_uri";
  predicate_column = codes "predicate";
  object_uri_column = codes "object_uri";
  object_value_column = codes "object_value";
  tenant_field = none;
  tenant_entity = none;
  shard_family = none;
}

-- An advisory: its code, its IRI and the name that is used instead.
pub record Fallback : Type 0 where
  pub code : Str
  pub of_iri : Str
  pub instead : Str

pub record Config : Type 0 where
  pub default_collection : Str
  pub permissive : Bool
  -- `_shard_family_by_collection`
  pub families : Dict Str (List Str)
