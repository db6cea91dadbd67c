-- ===== src/Clamp/Examples.antt =====
-- The theorem on clamping at a concrete integer.
use hexmagnet.Prelude.{pos, negsuc, ◌≡◌}
use hexmagnet.Clamp.{clamp_int32, clamp_uint8, clamp_uint16, clamp_uint32, nearest, clamp-nearest}

clamp-nearest_example :
    (clamp_int32 (negsuc 5000000000)
      ≡ nearest (negsuc 2147483647) (pos 2147483647) (negsuc 5000000000))
    × ((pos (clamp_uint8 (negsuc 5000000000)) ≡ nearest (pos 0) (pos 255) (negsuc 5000000000))
        × ((pos (clamp_uint16 (negsuc 5000000000))
              ≡ nearest (pos 0) (pos 65535) (negsuc 5000000000))
            × (pos (clamp_uint32 (negsuc 5000000000))
                ≡ nearest (pos 0) (pos 4294967295) (negsuc 5000000000))))
clamp-nearest_example = clamp-nearest (negsuc 5000000000)
