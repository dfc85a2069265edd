-- ===== src/Vertex.antt =====
-- Vertices (saengra-server/include/vertex.h). The hash that `VertexData` keeps is determined by its
-- other fields, and is left out.
use saengra.Prelude.{ℕ, Bool, Eq, ℕ_discrete}
use saengra.Text.{Text}

-- The address of an interned type name.
abbrev pub VertexTypeName : Type 0
VertexTypeName = ℕ

pub record VertexData : Type 0 where
  pub type_name : VertexTypeName
  pub value : Text

unfoldable pub VertexData-discrete : Discrete VertexData
VertexData-discrete = hlevel ℕ_discrete

instance abbrev pub vertex_data_eq : Eq VertexData
vertex_data_eq = record { dec = VertexData-discrete }

pub record StoredVertex : Type 0 where
  pub type_name : VertexTypeName
  pub value : Text
  pub present : Bool

abbrev pub data_of : StoredVertex → VertexData
data_of s = record { type_name = s.type_name; value = s.value }
