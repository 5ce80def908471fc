-- ===== src/Yaml/Examples.antt =====
-- Texts that src/foundation/argo_yaml.c reads.
use argo.Base.{◌≡◌, refl, arith, List, [], ◌∷◌, some, Bytes, codes, inl}
use argo.Error.{success, e_invalid_params}
use argo.Yaml.{yaml_get_value}
use argo.Yaml.Reading.{answer}
use argo.Yaml.RoundTrip.{text_of, value_in, yaml_get_value-text_of}

abbrev text : Bytes
text = codes "# a workflow\nname : build # it\n\tport:\t'80 '\r\nnone\nname: late\n"

abbrev pairs : List (Bytes × Bytes)
pairs = (codes "name", codes "my: build ") ∷ (codes "port", codes "80") ∷ []

yaml_get_value-text_of_example :
    yaml_get_value (some (text_of 34 pairs)) (some (codes "port")) (some []) 8
    ≡ answer [] 7 (value_in (codes "port") pairs)
yaml_get_value-text_of_example =
    yaml_get_value-text_of 34 pairs (codes "port") [] 7 (inl refl) (ground arith)

name_of_text :
    yaml_get_value (some text) (some (codes "name")) (some []) 8 ≡ (some (codes "build"), success)
unfolding yaml_get_value
name_of_text = refl

port_of_text :
    yaml_get_value (some text) (some (codes "port")) (some []) 8 ≡ (some (codes "80 "), success)
unfolding yaml_get_value
port_of_text = refl

-- A '#' cuts a value in quotes too, and its opening quote stays.
comment_in_quotes :
    yaml_get_value (some (codes "k: \"a#b\"")) (some (codes "k")) (some []) 8
    ≡ (some (codes "\"a"), success)
unfolding yaml_get_value
comment_in_quotes = refl

no_buffer_space :
    yaml_get_value (some text) (some (codes "port")) (some []) 0 ≡ (some [], e_invalid_params)
unfolding yaml_get_value
no_buffer_space = refl
