-- ===== src/Discovery/Document.antt =====
-- get_element_value and the assembly of the ID string in get_device_id of src/vxi11.c.
use liblxi.Base.{
  ℕ, ◌+◌, ◌≤◌, ◌<◌, ◌≡◌, refl, some, [], ◌∷◌, ◌++◌, append_assoc, length, drop, length-drop, ok,
  Bytes, write_at, write_at-splice, c_string, c_string_lem, strcat, strcat_lem, IsText,
  append-IsText, arith,
}
use liblxi.Discovery.{Xml}
use liblxi.Discovery.Identify.{
  manufacturer, model, serial_number, firmware_revision, comma, find_value, get_element_value,
  append_value, assemble_id,
}

-- A buffer that holds a text and its NUL, and has so much room behind them.
record Holds (text : Bytes) (room : ℕ) (buf : Bytes) : Type 0 where
  rest : Bytes
  layout : buf ≡ text ++ (0 ∷ rest)
  behind : room ≤ length rest
  clean : IsText text

strcat-Holds :
    (text s buf : Bytes) (room : ℕ)
    → IsText s
    → Holds text (length s + room) buf
    → (buf' : Bytes) × (strcat buf s ≡ ok buf') × Holds (text ++ s) room buf'
strcat-Holds text s buf room clean h =
    let fits : length s ≤ length h.rest = omega (arith, h.behind) in
    (
      (text ++ s) ++ (0 ∷ drop (length s) h.rest),
      rw h.layout (strcat_lem text h.rest s h.clean fits),
      record {
        rest = drop (length s) h.rest;
        layout = refl;
        behind = rw (length-drop (length s) h.rest) (omega (arith, h.behind));
        clean = append-IsText text s h.clean clean;
      },
    )

Holds-c_string : (text buf : Bytes) (room : ℕ) → Holds text room buf → c_string buf ≡ ok text
Holds-c_string text buf room h = rw h.layout (c_string_lem text h.rest h.clean)

empty-Holds :
    (id : Bytes) (room : ℕ)
    → room < length id
    → (id0 : Bytes) × (write_at id 0 (0 ∷ []) ≡ ok id0) × Holds [] room id0
empty-Holds [] room h = absurd (omega arith)
empty-Holds (z ∷ rest) room h = (
  0 ∷ rest,
  write_at-splice (z ∷ rest) 0 (0 ∷ []) (omega arith),
  record { rest = rest; layout = refl; behind = omega arith; clean = tt },
)

module _ {Doc Node : Type 0} (xml : Xml Doc Node) (doc : Doc) (root : Node)
    (rooted : xml.xml_doc_get_root_element doc ≡ some root) where
  append_value-strcat :
      (element value id : Bytes)
      → find_value xml doc element (xml.xml_children_node root) ≡ some value
      → append_value xml doc element id ≡ strcat id value
  unfolding append_value get_element_value
  append_value-strcat element value id e = rw (rooted, e) refl

  -- An identification document with the four elements, whose values are texts that fit into the
  -- buffer, is assembled to the values with commas between them.
  pub assemble_id-joins :
      (id m o s f : Bytes)
      → find_value xml doc manufacturer (xml.xml_children_node root) ≡ some m
      → find_value xml doc model (xml.xml_children_node root) ≡ some o
      → find_value xml doc serial_number (xml.xml_children_node root) ≡ some s
      → find_value xml doc firmware_revision (xml.xml_children_node root) ≡ some f
      → IsText m
      → IsText o
      → IsText s
      → IsText f
      → length m + length o + length s + length f + 3 < length id
      → (id' : Bytes) × (assemble_id xml doc id ≡ ok id')
        × (c_string id' ≡ ok (m ++ (comma ++ (o ++ (comma ++ (s ++ (comma ++ f)))))))
  unfolding assemble_id
  assemble_id-joins id m o s f em eo es ef hm ho hs hf fits =
      let one : IsText comma = (omega arith, tt) in
      let (id0, e0, k0) =
        empty-Holds id (length m + (1 + (length o + (1 + (length s + (1 + (length f + 0)))))))
          (omega arith) in
      let (id1, e1, k1) = strcat-Holds [] m id0 _ hm k0 in
      let (id2, e2, k2) = strcat-Holds m comma id1 _ one k1 in
      let (id3, e3, k3) = strcat-Holds (m ++ comma) o id2 _ ho k2 in
      let (id4, e4, k4) = strcat-Holds ((m ++ comma) ++ o) comma id3 _ one k3 in
      let (id5, e5, k5) = strcat-Holds (((m ++ comma) ++ o) ++ comma) s id4 _ hs k4 in
      let (id6, e6, k6) = strcat-Holds ((((m ++ comma) ++ o) ++ comma) ++ s) comma id5 _ one k5 in
      let (id7, e7, k7) =
        strcat-Holds (((((m ++ comma) ++ o) ++ comma) ++ s) ++ comma) f id6 0 hf k6 in
      (
        id7,
        rw
            (
              e0,
              append_value-strcat manufacturer m id0 em,
              e1,
              e2,
              append_value-strcat model o id2 eo,
              e3,
              e4,
              append_value-strcat serial_number s id4 es,
              e5,
              e6,
              append_value-strcat firmware_revision f id6 ef,
              e7,
            )
            refl,
        rw
            (
              append_assoc ((((m ++ comma) ++ o) ++ comma) ++ s) comma f,
              append_assoc (((m ++ comma) ++ o) ++ comma) s (comma ++ f),
              append_assoc ((m ++ comma) ++ o) comma (s ++ (comma ++ f)),
              append_assoc (m ++ comma) o (comma ++ (s ++ (comma ++ f))),
              append_assoc m comma (o ++ (comma ++ (s ++ (comma ++ f)))),
            )
            at (Holds-c_string _ id7 0 k7),
      )
