-- ===== src/Keyboard/Tables.antt =====
-- The four tables of `scancodeToChar` of foki/ps2kbd.c, as the bytes that the UTF-8 source puts into the
-- arrays, each with its NUL.
use acky.Base.{ℕ, List, [], ◌∷◌}

abbrev pub table_upper_fr : List ℕ
table_upper_fr =
    32 ∷ 32 ∷ 32 ∷ 49 ∷ 50 ∷ 51 ∷ 52 ∷ 53 ∷ 54 ∷ 55 ∷ 56 ∷ 57 ∷ 48 ∷ 194 ∷ 176 ∷ 43 ∷ 32 ∷ 65 ∷ 90
    ∷ 69 ∷ 82 ∷ 84 ∷ 89 ∷ 85 ∷ 73 ∷ 79 ∷ 80 ∷ 194 ∷ 168 ∷ 194 ∷ 163 ∷ 81 ∷ 83 ∷ 68 ∷ 70 ∷ 71 ∷ 72
    ∷ 74 ∷ 75 ∷ 76 ∷ 77 ∷ 37 ∷ 32 ∷ 194 ∷ 181 ∷ 87 ∷ 88 ∷ 67 ∷ 86 ∷ 66 ∷ 78 ∷ 63 ∷ 46 ∷ 47 ∷ 194
    ∷ 167 ∷ 32 ∷ 32 ∷ 32 ∷ 32 ∷ 32 ∷ 0 ∷ []

abbrev pub table_lower_fr : List ℕ
table_lower_fr =
    32 ∷ 32 ∷ 32 ∷ 38 ∷ 101 ∷ 34 ∷ 39 ∷ 40 ∷ 45 ∷ 101 ∷ 95 ∷ 99 ∷ 97 ∷ 41 ∷ 61 ∷ 32 ∷ 32 ∷ 97 ∷ 122
    ∷ 101 ∷ 114 ∷ 116 ∷ 121 ∷ 117 ∷ 105 ∷ 111 ∷ 112 ∷ 94 ∷ 36 ∷ 32 ∷ 32 ∷ 113 ∷ 115 ∷ 100 ∷ 102
    ∷ 103 ∷ 104 ∷ 106 ∷ 107 ∷ 108 ∷ 109 ∷ 195 ∷ 185 ∷ 32 ∷ 42 ∷ 119 ∷ 120 ∷ 99 ∷ 118 ∷ 98 ∷ 110 ∷ 44
    ∷ 59 ∷ 58 ∷ 33 ∷ 32 ∷ 32 ∷ 32 ∷ 32 ∷ 32 ∷ 0 ∷ []

abbrev pub table_lower_uk : List ℕ
table_lower_uk =
    32 ∷ 32 ∷ 32 ∷ 49 ∷ 50 ∷ 51 ∷ 52 ∷ 53 ∷ 54 ∷ 55 ∷ 56 ∷ 57 ∷ 48 ∷ 45 ∷ 61 ∷ 32 ∷ 32 ∷ 113 ∷ 119
    ∷ 101 ∷ 114 ∷ 116 ∷ 121 ∷ 117 ∷ 105 ∷ 111 ∷ 112 ∷ 91 ∷ 93 ∷ 32 ∷ 32 ∷ 97 ∷ 115 ∷ 100 ∷ 102 ∷ 103
    ∷ 104 ∷ 106 ∷ 107 ∷ 108 ∷ 59 ∷ 39 ∷ 96 ∷ 32 ∷ 35 ∷ 122 ∷ 120 ∷ 99 ∷ 118 ∷ 98 ∷ 110 ∷ 109 ∷ 44
    ∷ 46 ∷ 47 ∷ 32 ∷ 32 ∷ 32 ∷ 32 ∷ 0 ∷ []

abbrev pub table_upper_uk : List ℕ
table_upper_uk =
    32 ∷ 32 ∷ 32 ∷ 33 ∷ 34 ∷ 194 ∷ 163 ∷ 37 ∷ 94 ∷ 38 ∷ 42 ∷ 40 ∷ 41 ∷ 95 ∷ 43 ∷ 32 ∷ 32 ∷ 81 ∷ 87
    ∷ 69 ∷ 82 ∷ 84 ∷ 89 ∷ 85 ∷ 73 ∷ 79 ∷ 80 ∷ 123 ∷ 125 ∷ 32 ∷ 32 ∷ 65 ∷ 83 ∷ 68 ∷ 70 ∷ 71 ∷ 72 ∷ 74
    ∷ 75 ∷ 76 ∷ 58 ∷ 64 ∷ 32 ∷ 32 ∷ 126 ∷ 90 ∷ 88 ∷ 67 ∷ 86 ∷ 66 ∷ 78 ∷ 77 ∷ 60 ∷ 62 ∷ 63 ∷ 32 ∷ 32
    ∷ 32 ∷ 32 ∷ 0 ∷ []
